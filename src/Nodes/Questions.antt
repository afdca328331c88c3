-- ===== src/Nodes/Questions.antt =====
-- `ObservationPlannerNode` plans within the budget.
use aiops_rca_orchestrator.Common.{
  ℕ, suc, ◌-◌, ◌≤◌, ◌≡◌, subst, false, Option, none, String, List, [], ◌∷◌, ◌++◌, arith, ◌⊎◌, inl,
  inr, Bool-cases, leb, length, is_empty, length-append,
}
use aiops_rca_orchestrator.Common.Dict.{Dict}
use aiops_rca_orchestrator.Common.Value.{Value}
use aiops_rca_orchestrator.Common.Text.{◌<>◌, join}
use aiops_rca_orchestrator.Common.Outcome.{
  Outcome, ok, after, returned, either, ok-injective, ◌>>=◌,
}
use aiops_rca_orchestrator.Schema.Decisions.{ObservationDecision, PlannedObservation}
use aiops_rca_orchestrator.State.{InvestigationState, is_set}
use aiops_rca_orchestrator.Nodes.World.{World, note, resolved_window}
use aiops_rca_orchestrator.Nodes.Planner.{
  anchors, question_of, observation_call, Planning, consider, plan_questions, planned_state,
  plan_turn, nothing_planned, observation_planner, exhausted,
}

exhausted-questions :
    (s : InvestigationState) (total : ℕ) (p t : Planning)
    → exhausted s total p ≡ ok t
    → p.questions ≡ t.questions
unfolding exhausted
exhausted-questions s total p t h = ground arith

module _ (w : World) (s : InvestigationState) where
  abbrev Room : Planning → Type 0
  Room p = length p.questions ≤ s.limits.max_tool_calls - s.tool_call_count

  -- What becomes of a proposal, by what its arguments came to.
  abbrev called :
      PlannedObservation → Planning → (Dict Value × Option String) ⊎ String → Outcome Planning
  called proposal p (inl (arguments, host)) = ok (record p {
    questions = p.questions ++ question_of w.registry s proposal arguments host ∷ [];
  })
  called proposal p (inr reason) =
      note "candidate_unusable" (proposal.required_tool <> (": " <> reason)) none p.unknowns
      >>= λ unknowns. ok (record p { unknowns = unknowns })

  called-length :
      (proposal : PlannedObservation) (p t : Planning) (c : (Dict Value × Option String) ⊎ String)
      → called proposal p c ≡ ok t
      → length t.questions ≤ suc (length p.questions)
  called-length proposal p t (inl (arguments, host)) h =
      subst (λ t. length t.questions ≤ suc (length p.questions)) (ok-injective _ t h)
        (omega (
          arith,
          length-append p.questions (question_of w.registry s proposal arguments host ∷ []),
        ))
  called-length proposal p t (inr reason) h =
      returned (λ t. length t.questions ≤ suc (length p.questions))
        (note "candidate_unusable" (proposal.required_tool <> (": " <> reason)) none p.unknowns) _
        (λ unknowns. omega arith) h

  consider-length :
      (proposal : PlannedObservation) (p t : Planning)
      → consider w s proposal p ≡ ok t
      → length t.questions ≤ suc (length p.questions)
  unfolding consider
  consider-length proposal p t h =
      either (λ t. length t.questions ≤ suc (length p.questions)) (is_empty (anchors s proposal)) _
        _
        (returned (λ t. length t.questions ≤ suc (length p.questions))
          (note "observation_unanchored"
            (proposal.required_tool
              <> (": named hypotheses that do not exist: "
                  <> join ", " proposal.discriminates_hypothesis_ids))
            none p.unknowns)
          _ (λ unknowns. omega arith))
        (called-length proposal p t (observation_call w.rt s proposal)) h

  plan_questions-Room :
      (total : ℕ) (proposals : List PlannedObservation) (p t : Planning)
      → Room p
      → plan_questions w s total proposals p ≡ ok t
      → Room t
  unfolding plan_questions
  plan_questions-Room total [] p t r h = subst Room (ok-injective p t h) r
  plan_questions-Room total (proposal ∷ proposals) p t r h =
      elim (Bool-cases (leb (s.limits.max_tool_calls - s.tool_call_count) (length p.questions))) [
        | inl spent ↦
            subst (λ q. length q ≤ s.limits.max_tool_calls - s.tool_call_count)
              (exhausted-questions s total p t (rw (plan_questions, spent) at h)) r
        | inr open_yet ↦
            after Room (consider w s proposal p) _
              (λ n one rest.
                let longer = consider-length proposal p n one in
                plan_questions-Room total proposals n t (ground arith) rest)
              (rw (plan_questions, open_yet) at h)
      ]

  abbrev Left : InvestigationState → Type 0
  Left t = length t.next_questions ≤ s.limits.max_tool_calls - s.tool_call_count

  planned-Left : (p : Planning) → Room p → Left (planned_state s p)
  unfolding planned_state
  planned-Left p room = ground arith

  turn-Left :
      (decision : ObservationDecision) (t : InvestigationState)
      → plan_turn w s decision ≡ ok t
      → Left t
  unfolding plan_turn
  turn-Left decision t h =
      after Left (resolved_window s) _
        (λ window _.
          either Left (is_empty decision.observations) (ok (nothing_planned s decision)) _
            (λ none_planned. subst Left (ok-injective _ t none_planned) (omega arith))
            (after Left
              (plan_questions w s (length decision.observations) decision.observations
                (record { questions = []; unknowns = s.unknowns }))
              _
              (λ p fitted last. subst Left (ok-injective _ t last) (
                planned-Left p (
                  plan_questions-Room (length decision.observations) decision.observations _ p
                    (omega arith) fitted)))))
        h

  -- From a state that has not stopped, a planner that returns leaves as many questions as calls remain, or fewer.
  pub observation_planner-within_budget :
      (decision : ObservationDecision) (t : InvestigationState)
      → is_set s.stop_reason ≡ false
      → observation_planner w decision s ≡ ok t
      → length t.next_questions ≤ s.limits.max_tool_calls - s.tool_call_count
  unfolding observation_planner plan_turn
  observation_planner-within_budget decision t going h =
      after Left (plan_turn w s decision) _
        (λ n planned visited. subst Left (ok-injective _ t visited) (turn-Left decision n planned))
        (rw (observation_planner, going) at h)
