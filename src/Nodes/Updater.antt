-- ===== src/Nodes/Updater.antt =====
-- `HypothesisUpdaterNode` of graph/live_nodes.py.
use aiops_rca_orchestrator.Common.{
  Bool, not, ◌&&◌, none, some, String, List, [], ◌∷◌, ◌++◌, map, ◌=ₜ◌, if◌then◌else◌, is_empty, all,
  any, keep,
}
use aiops_rca_orchestrator.Common.Text.{◌<>◌, text_take, contains, dedupe_from, sort}
use aiops_rca_orchestrator.Common.Dict.{Dict, lookup, insert, values, index_from}
use aiops_rca_orchestrator.Common.Value.{Runtime}
use aiops_rca_orchestrator.Common.Outcome.{Outcome, ok, require, value_error, ◌>>=◌, ◌>>◌}
use aiops_rca_orchestrator.Schema.Investigation.{Hypothesis, KnownFact, is_error, UnknownItem}
use aiops_rca_orchestrator.Schema.Decisions.{
  HypothesisUpdate, FactDecision, HypothesisUpdateDecision,
}
use aiops_rca_orchestrator.State.{InvestigationState}
use aiops_rca_orchestrator.Nodes.World.{visit, note, list_text}
use aiops_rca_orchestrator.Nodes.Hypotheses.{fresh}

-- `sorted(set(texts))`
sorted_set : List String → List String
unfolding sort
sorted_set texts = sort (dedupe_from [] texts)

abbrev pub known_evidence : InvestigationState → List String
known_evidence state = map (λ e. e.evidence_id) state.evidence

-- The ids of the evidence that the failed calls of this turn produced, when every call failed.
unfoldable pub from_failure : InvestigationState → List String
from_failure state =
    if all (λ r. is_error r.status) state.last_observations
    then map (λ e. e.evidence_id)
        (keep
          (λ e.
            any (λ r. is_error r.status && r.tool_call_id =ₜ e.tool_call_id)
              state.last_observations)
          state.evidence)
    else []

-- The citations that stand: those of known evidence that no failed call produced.
unfoldable pub citations : InvestigationState → List String → List String
unfolding from_failure
citations state refs =
    keep (λ ref. not (contains (from_failure state) ref))
      (keep (contains (known_evidence state)) refs)

cited : InvestigationState → HypothesisUpdate → List String
cited state update =
    keep (contains (known_evidence state))
      (update.supporting_evidence_ids ++ update.counter_evidence_ids)

refused : InvestigationState → HypothesisUpdate → List String
unfolding cited from_failure sorted_set
refused state update = sorted_set (keep (contains (from_failure state)) (cited state update))

dropped : InvestigationState → HypothesisUpdate → List String
unfolding sorted_set
dropped state update = sorted_set (
    keep (λ ref. not (contains (known_evidence state) ref))
      (update.supporting_evidence_ids ++ update.counter_evidence_ids))

unfoldable pub refused_notes :
    Runtime → InvestigationState → HypothesisUpdate → List UnknownItem → Outcome (List UnknownItem)
unfolding refused list_text
refused_notes rt state update unknowns =
    if is_empty (refused state update)
    then ok unknowns
    else note "hypothesis_update_evidence_from_failed_call"
        ("가설 "
          <> (update.hypothesis_id
              <> ("의 근거 중 "
                  <> (list_text rt (refused state update) <> "는 실패한 도구 호출에서 나온 것이라 연결하지 않았다."))))
        none unknowns

unfoldable pub dropped_notes :
    Runtime → InvestigationState → HypothesisUpdate → List UnknownItem → Outcome (List UnknownItem)
unfolding dropped list_text
dropped_notes rt state update unknowns =
    if is_empty (dropped state update)
    then ok unknowns
    else note "hypothesis_update_evidence_dropped"
        ("가설 "
          <> (update.hypothesis_id
              <> ("의 근거 중 " <> (list_text rt (dropped state update) <> "를 확인할 수 없어 연결하지 않았다."))))
        none unknowns

-- The variables of the loops.
pub record Updating : Type 0 where
  pub hypotheses : Dict Hypothesis
  pub unknowns : List UnknownItem

unfoldable pub updated : InvestigationState → HypothesisUpdate → Hypothesis → Hypothesis
unfolding citations
updated state update current = record current {
  status = update.status;
  supporting_evidence_ids = citations state update.supporting_evidence_ids;
  counter_evidence_ids = citations state update.counter_evidence_ids;
  rationale = update.rationale;
}

-- One round of the loop over the updates.
unfoldable pub apply_update :
    Runtime → InvestigationState → HypothesisUpdate → Updating → Outcome Updating
unfolding refused_notes dropped_notes updated
apply_update rt state update u = elim (lookup update.hypothesis_id u.hypotheses) [
  | none ↦
      note "hypothesis_update_unknown_hypothesis"
        ("업데이트가 존재하지 않는 가설 " <> (update.hypothesis_id <> "를 가리켜 무시했다.")) none u.unknowns
      >>= λ unknowns. ok (record u { unknowns = unknowns })
  | some current ↦ refused_notes rt state update u.unknowns >>= λ a.
      dropped_notes rt state update a >>= λ b. ok (record {
        hypotheses = insert current.id (updated state update current) u.hypotheses;
        unknowns = b;
      })
]

unfoldable pub apply_updates :
    Runtime → InvestigationState → List HypothesisUpdate → Updating → Outcome Updating
unfolding apply_update
apply_updates rt state [] u = ok u
apply_updates rt state (update ∷ updates) u =
    apply_update rt state update u >>= λ next. apply_updates rt state updates next

-- One round of the loop over the new hypotheses.
unfoldable pub add_hypothesis : Hypothesis → Updating → Outcome Updating
add_hypothesis h u = elim (lookup h.id u.hypotheses) [
  | none ↦ ok (record u { hypotheses = insert h.id (fresh h) u.hypotheses })
  | some current ↦
      note "hypothesis_id_reused" ("새 가설이 기존 id " <> (h.id <> "를 다시 써서 무시했다.")) none u.unknowns
      >>= λ unknowns. ok (record u { unknowns = unknowns })
]

unfoldable pub add_hypotheses : List Hypothesis → Updating → Outcome Updating
unfolding add_hypothesis
add_hypotheses [] u = ok u
add_hypotheses (h ∷ hs) u = add_hypothesis h u >>= λ next. add_hypotheses hs next

abbrev texts_eq : List String → List String → Bool
texts_eq [] [] = Bool.true
texts_eq (s ∷ ss) (t ∷ ts) = s =ₜ t && texts_eq ss ts
texts_eq _ _ = Bool.false

-- `(fact, tuple(evidence_ids)) in known_fact_keys`
unfoldable pub fact_known : List KnownFact → FactDecision → Bool
fact_known facts f = any (λ k. k.fact =ₜ f.fact && texts_eq k.evidence_ids f.evidence_ids) facts

abbrev pub Facts : Type 0
Facts = List KnownFact × List UnknownItem

-- One round of the loop over the new facts.
unfoldable pub add_fact : InvestigationState → FactDecision → Facts → Outcome Facts
unfolding fact_known text_take
add_fact state f (facts, unknowns) =
    if not (all (contains (known_evidence state)) f.evidence_ids)
    then (note "known_fact_evidence_missing"
          ("사실 '" <> (text_take 80 f.fact <> "'이 확인할 수 없는 근거를 가리켜 기록하지 않았다.")) none unknowns
        >>= λ more. ok (facts, more))
    else if fact_known facts f
    then ok (facts, unknowns)
    else ok (facts ++ (record { fact = f.fact; evidence_ids = f.evidence_ids }) ∷ [], unknowns)

unfoldable pub add_facts : InvestigationState → List FactDecision → Facts → Outcome Facts
unfolding add_fact
add_facts state [] facts = ok facts
add_facts state (f ∷ fs) facts = add_fact state f facts >>= λ next. add_facts state fs next

-- `HypothesisUpdaterNode.__call__`, with what the model decided.
unfoldable pub hypothesis_updater :
    Runtime → HypothesisUpdateDecision → InvestigationState → Outcome InvestigationState
unfolding apply_updates add_hypotheses add_facts
hypothesis_updater rt decision state = do
  require (not (is_empty state.last_observations))
      (value_error "hypothesis updater requires an observation")
  u ← apply_updates rt state decision.updates (record {
    hypotheses = index_from (λ h. h.id) [] state.hypotheses;
    unknowns = state.unknowns;
  })
  v ← add_hypotheses decision.new_hypotheses u
  facts ← add_facts state decision.new_facts (state.known_facts, v.unknowns)
  ok (
      visit "hypothesis_updater" (record state {
        hypotheses = values v.hypotheses;
        known_facts = facts.0;
        unknowns = facts.1;
        stop_reason = decision.stop_reason;
      }))
