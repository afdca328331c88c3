-- ===== src/Nodes/Budgets.antt =====
-- The tool-call budget across the planner, the router and the executor.
use aiops_rca_orchestrator.Common.{
  ℕ, suc, ◌+◌, ◌≤◌, ◌<◌, ◌≡◌, refl, sym, ap, subst, ◌∙◌, false, none, String, List, [], ◌∷◌, ◌++◌,
  ◌=ₜ◌, if◌then◌else◌, arith, ◌⊎◌, inl, inr, Option-cases, length, is_empty, length-append,
  append-nil, append_assoc,
}
use aiops_rca_orchestrator.Common.Outcome.{
  Outcome, Exception, tool_policy_error, ok, raised, after, returned, either, ok-injective,
}
use aiops_rca_orchestrator.Schema.Investigation.{
  ObservationQuestion, PlannedToolCall, ToolExecutionResult, planned_tool_call,
}
use aiops_rca_orchestrator.Registry.{ToolPolicy, validate_call}
use aiops_rca_orchestrator.Registry.Guards.{validate_call-Allowed}
use aiops_rca_orchestrator.Adapter.Failures.{describe_failure}
use aiops_rca_orchestrator.Common.Value.{Runtime}
use aiops_rca_orchestrator.Common.Text.{◌<>◌}
use aiops_rca_orchestrator.State.{InvestigationState}
use aiops_rca_orchestrator.Nodes.World.{World, note, host_id_of}
use aiops_rca_orchestrator.Nodes.Router.{
  Routing, routed, route_verdict, route_question, route_questions, route_tool, tool_router,
  question_context, catalog_scope,
}
use aiops_rca_orchestrator.Nodes.Executor.{
  Collected, collect, collect_all, gather, result_notes, collected_from, tool_executor,
}

-- The calls made and the calls planned are within the limit.
abbrev Fits : InvestigationState → ℕ → Type 0
Fits s planned = s.tool_call_count + planned ≤ s.limits.max_tool_calls

module _ (w : World) (s : InvestigationState) where
  verdict-length :
      (q : ObservationQuestion) (r t : Routing) (v : Outcome ToolPolicy)
      → route_verdict s q r v ≡ ok t
      → (length t.planned ≤ length r.planned)
        ⊎ ((p : ToolPolicy) × (v ≡ ok p)) × (length t.planned ≤ suc (length r.planned))
  unfolding route_verdict
  verdict-length q r t (ok p) h = inr (
    (p, refl),
    returned (λ t. length t.planned ≤ suc (length r.planned))
        (planned_tool_call p.name q.arguments q.question q.discriminates_hypothesis_ids q.host
          (host_id_of s.hosts q.host))
        _ (λ call. omega (arith, length-append r.planned (call ∷ []))) h,
  )
  verdict-length q r t (raised (tool_policy_error message retryable)) h = inl (
      returned (λ t. length t.planned ≤ length r.planned)
        (note "tool_routing_blocked" message none r.unknowns) _ (λ unknowns. omega arith) h)
  verdict-length q r t (raised _) h = absurd cc

  context-spare :
      (q : ObservationQuestion) (r : Routing) (tool : String) (p : ToolPolicy)
      → validate_call w.rt w.registry tool q.arguments
          (question_context s q r.planned)
          (catalog_scope s.tool_catalog tool)
        ≡ ok p
      → s.tool_call_count + length r.planned < s.limits.max_tool_calls
  unfolding question_context
  context-spare q r tool p allowed =
      (validate_call-Allowed w.rt w.registry tool q.arguments (question_context s q r.planned)
        (catalog_scope s.tool_catalog tool) p allowed).1.0

  tool-Fits :
      (q : ObservationQuestion) (r t : Routing) (tool : String)
      → Fits s (length r.planned)
      → (if tool =ₜ "" then ok r else route_tool w s q r tool) ≡ ok t
      → Fits s (length t.planned)
  unfolding route_tool
  tool-Fits q r t tool fits =
      either (λ t. Fits s (length t.planned)) (tool =ₜ "") (ok r) _
        (λ same. subst (λ t. Fits s (length t.planned)) (ok-injective r t same) fits)
        (λ verdict.
          elim (verdict-length q r t
            (validate_call w.rt w.registry tool q.arguments (question_context s q r.planned)
              (catalog_scope s.tool_catalog tool))
            verdict) [
              | inl no_more ↦ omega arith
              | inr ((p, allowed), one_more) ↦
                  let spare = context-spare q r tool p allowed in omega arith
            ])

  question-Fits :
      (q : ObservationQuestion) (r t : Routing)
      → Fits s (length r.planned)
      → route_question w s q r ≡ ok t
      → Fits s (length t.planned)
  unfolding route_question
  question-Fits q r t fits h = elim (Option-cases q.required_tool) [
    | inl no_tool ↦ subst (λ t. Fits s (length t.planned)) (ok-injective r t (rw no_tool at h)) fits
    | inr (tool, named) ↦ tool-Fits q r t tool fits (rw named at h)
  ]

  questions-fit :
      (qs : List ObservationQuestion) (r t : Routing)
      → Fits s (length r.planned)
      → route_questions w s qs r ≡ ok t
      → Fits s (length t.planned)
  unfolding route_questions
  questions-fit [] r t fits h = subst (λ t. Fits s (length t.planned)) (ok-injective r t h) fits
  questions-fit (q ∷ qs) r t fits h =
      after (λ t. Fits s (length t.planned)) (route_question w s q r) _
        (λ n one rest. questions-fit qs n t (question-Fits q r n fits one) rest) h

  routed-Fits :
      (r : Routing) → Fits s (length r.planned) → Fits s (length (routed s r).planned_tool_calls)
  unfolding routed
  routed-Fits r fits = ground arith

  -- From a state whose count of calls is within the limit on tool calls, the calls that a
  -- returning router plans, with the calls already made, are within the limit.
  pub tool_router-within_budget :
      (t : InvestigationState)
      → s.tool_call_count ≤ s.limits.max_tool_calls
      → tool_router w s ≡ ok t
      → s.tool_call_count + length t.planned_tool_calls ≤ s.limits.max_tool_calls
  unfolding tool_router
  tool_router-within_budget t fits =
      either (λ t. Fits s (length t.planned_tool_calls)) (is_empty s.next_questions) _ _
        (λ none_left.
          subst (λ t. Fits s (length t.planned_tool_calls)) (ok-injective _ t none_left)
            (omega arith))
        (after (λ t. Fits s (length t.planned_tool_calls))
          (route_questions w s s.next_questions
            (record { planned = []; unknowns = s.unknowns; refusals = [] }))
          _
          (λ r chosen last.
            subst (λ t. Fits s (length t.planned_tool_calls)) (ok-injective _ t last)
              (routed-Fits r (questions-fit s.next_questions _ r (omega arith) chosen))))

-- The results of the calls that came back with one, in the order of the calls.
unfoldable pub answers :
    List (PlannedToolCall × Outcome ToolExecutionResult) → List ToolExecutionResult
answers [] = []
answers ((call, ok result) ∷ rest) = result ∷ answers rest
answers ((call, raised exception) ∷ rest) = answers rest

-- The results and the observations grow by these.
abbrev Grown : Collected → List ToolExecutionResult → Collected → Type 0
Grown c rs d = (d.results ≡ c.results ++ rs) × (d.observations ≡ c.observations ++ rs)

Grown-none : (c : Collected) → Grown c [] c
Grown-none c = (sym (append-nil c.results), sym (append-nil c.observations))

Grown-then :
    (c n d : Collected) (rs ss : List ToolExecutionResult)
    → Grown c rs n
    → Grown n ss d
    → Grown c (rs ++ ss) d
Grown-then c n d rs ss one more = (
  more.0 ∙ ap (λ l. l ++ ss) one.0 ∙ append_assoc c.results rs ss,
  more.1 ∙ ap (λ l. l ++ ss) one.1 ∙ append_assoc c.observations rs ss,
)

collect-ok :
    (rt : Runtime) (c d : Collected) (call : PlannedToolCall) (result : ToolExecutionResult)
    → collect rt c call (ok result) ≡ ok d
    → Grown c (result ∷ []) d
unfolding collect
collect-ok rt c d call result h =
    returned (Grown c (result ∷ [])) (result_notes rt result c.unknowns) _
      (λ unknowns. (refl, refl)) h

collect-raised :
    (rt : Runtime) (c d : Collected) (call : PlannedToolCall) (exception : Exception)
    → collect rt c call (raised exception) ≡ ok d
    → Grown c [] d
unfolding collect
collect-raised rt c d call exception h =
    returned (Grown c [])
      (note "tool_call_failed" (call.tool_name <> (": " <> describe_failure rt exception)) none
        c.unknowns)
      _ (λ unknowns. Grown-none c) h

collect_all-Grown :
    (rt : Runtime) (c d : Collected) (calls : List (PlannedToolCall × Outcome ToolExecutionResult))
    → collect_all rt c calls ≡ ok d
    → Grown c (answers calls) d
unfolding collect_all answers
collect_all-Grown rt c d [] h = subst (Grown c []) (ok-injective c d h) (Grown-none c)
collect_all-Grown rt c d ((call, ok result) ∷ rest) h =
    after (Grown c (result ∷ answers rest)) (collect rt c call (ok result)) _
      (λ n one others.
        Grown-then c n d (result ∷ []) (answers rest) (collect-ok rt c n call result one)
          (collect_all-Grown rt n d rest others))
      h
collect_all-Grown rt c d ((call, raised exception) ∷ rest) h =
    after (Grown c (answers rest)) (collect rt c call (raised exception)) _
      (λ n one others.
        Grown-then c n d [] (answers rest) (collect-raised rt c n call exception one)
          (collect_all-Grown rt n d rest others))
      h

length-answers :
    (calls : List (PlannedToolCall × Outcome ToolExecutionResult))
    → length (answers calls) ≤ length calls
unfolding answers
length-answers [] = omega arith
length-answers ((call, ok result) ∷ rest) = omega (arith, length-answers rest)
length-answers ((call, raised exception) ∷ rest) = omega (arith, length-answers rest)

length-gather :
    (w : World) (s : InvestigationState) (offset : ℕ) (calls : List PlannedToolCall)
    → length (gather w s offset calls) ≡ length calls
unfolding gather
length-gather w s offset [] = refl
length-gather w s offset (call ∷ calls) = ap suc (length-gather w s (suc offset) calls)

-- What is observed is what the calls that answered gave, each once and in order; the results of the
-- state grow by it, and the count of calls is the number of results.
abbrev pub Accounts : World → InvestigationState → InvestigationState → Type 0
Accounts w s t =
    (t.last_observations ≡ answers (gather w s 0 s.planned_tool_calls))
    × (t.tool_results ≡ s.tool_results ++ t.last_observations)
    × (t.tool_call_count ≡ length t.tool_results)
    × (t.tool_call_count ≡ length s.tool_results + length t.last_observations)
    × (length t.last_observations ≤ length s.planned_tool_calls)

-- If some call was planned and the executor returns, then what was observed are the results of the
-- calls that gave one, each once and in the order of the plan, and as many as the calls planned at
-- most: a call that raises takes no other with it. The results of the state are those it had and
-- these after them, and the count of calls is the number of results.
pub tool_executor-Accounts :
    (w : World) (s t : InvestigationState)
    → is_empty s.planned_tool_calls ≡ false
    → tool_executor w s ≡ ok t
    → Accounts w s t
unfolding tool_executor
tool_executor-Accounts w s t planned h =
    let calls = gather w s 0 s.planned_tool_calls in
    after (Accounts w s) (collect_all w.rt (collected_from s) calls) _
      (λ c ran last.
        let grown = collect_all-Grown w.rt (collected_from s) c calls ran in
        let added : c.results ≡ s.tool_results ++ c.observations =
          grown.0 ∙ ap (λ l. s.tool_results ++ l) (sym grown.1) in
        let few = subst (λ l. length l ≤ length calls) (sym grown.1) (length-answers calls) in
        let each = length-gather w s 0 s.planned_tool_calls in
        subst (Accounts w s) (ok-injective _ t last) (
          grown.1,
          added,
          refl,
          ap length added ∙ length-append s.tool_results c.observations,
          omega arith,
        ))
      (rw planned at h)
