-- ===== src/Graph/Bound.antt =====
-- Every run of the graph ends, within a number of visits that the limits fix.
use aiops_rca_orchestrator.Common.{
  ℕ, suc, ◌+◌, ◌*◌, ◌≤◌, ◌≡◌, zero, subst, sym, ap, true, none, some, arith, is_empty, ◌∙◌, inl,
  inr, Option-cases,
}
use aiops_rca_orchestrator.Common.Outcome.{ok, after, ok-injective}
use aiops_rca_orchestrator.State.{InvestigationState, rebuild}
use aiops_rca_orchestrator.Graph.Routing.{
  Node, resolve_hosts, establish_phenomenon, hypothesis_planner, observation_planner, tool_router,
  tool_executor, evidence_normalizer, hypothesis_updater, stop_guard, evidence_package_builder,
  report_writer, report_eval, guard_stop, route_after_report_eval,
}
use aiops_rca_orchestrator.Graph.Topology.{
  Answers, next_node, run_node, visit_node, Run, finish, step, drive,
}
use aiops_rca_orchestrator.Graph.Effects.{
  resolve_hosts-Keeps, establish_phenomenon-Keeps, hypothesis_planner-Keeps, tool_executor-Counts,
  evidence_normalizer-Counts, hypothesis_updater-Counts, observation_planner-counts,
  tool_router-exits, guard_stop-Counts, guard_stop-stops,
}
use aiops_rca_orchestrator.Graph.Budget.{
  budget, planner_budget, guard_budget, router_budget, Ready, Spends, rebuild-eq, trimmed-Ready,
  trimmed-budget, package-Spends, writer-Spends, hosts-Spends, establish-Spends, hypotheses-Spends,
  executor-Spends, normalizer-Spends, updater-Spends, planner-Spends, router-Spends, guard-Spends,
}

some-injective : (a b : Node) → some a ≡ some b → a ≡ b
some-injective a b h = cc

-- A node's own code uses one visit.
run_node-Spends :
    (node next : Node) (a : Answers) (s t : InvestigationState)
    → Ready node s
    → run_node node a s ≡ ok t
    → next_node node t ≡ some next
    → Spends node s next t
unfolding next_node run_node Ready route_after_report_eval
run_node-Spends resolve_hosts next a s t ready h e =
    hosts-Spends s t next ready (resolve_hosts-Keeps s a h) (some-injective _ _ e)
run_node-Spends establish_phenomenon next a s t ready h e =
    subst (λ n. Spends establish_phenomenon s n t) (some-injective _ _ e)
      (establish-Spends s t ready (establish_phenomenon-Keeps s a h))
run_node-Spends hypothesis_planner next a s t ready h e =
    subst (λ n. Spends hypothesis_planner s n t) (some-injective _ _ e)
      (hypotheses-Spends s t ready (hypothesis_planner-Keeps s a.hypotheses h))
run_node-Spends observation_planner next a s t ready h e =
    let k = observation_planner-counts s a.world a.observations h in
    subst (λ n. Spends observation_planner s n t) (some-injective _ _ e)
      (planner-Spends s t ready k.0 k.1 k.2)
run_node-Spends tool_router next a s t ready h e =
    router-Spends s t next (tool_router-exits s a.world h) (some-injective _ _ e)
run_node-Spends tool_executor next a s t ready h e =
    subst (λ n. Spends tool_executor s n t) (some-injective _ _ e)
      (executor-Spends s t (tool_executor-Counts s a.world h))
run_node-Spends evidence_normalizer next a s t ready h e =
    normalizer-Spends s t next (evidence_normalizer-Counts s a.world h) (some-injective _ _ e)
run_node-Spends hypothesis_updater next a s t ready h e =
    subst (λ n. Spends hypothesis_updater s n t) (some-injective _ _ e)
      (updater-Spends s t (hypothesis_updater-Counts s a.world a.update h))
run_node-Spends stop_guard next a s t ready h e =
    subst (Spends stop_guard s next) (ok-injective _ _ h) (
      guard-Spends s (guard_stop a.now s) next (guard_stop-Counts s a.now)
        (guard_stop-stops s a.now)
        (some-injective _ _ (ap (next_node stop_guard) (ok-injective _ _ h) ∙ e)))
run_node-Spends evidence_package_builder next a s t ready h e =
    subst (λ n. Spends evidence_package_builder s n t) (some-injective _ _ e) (package-Spends s t)
run_node-Spends report_writer next a s t ready h e =
    subst (λ n. Spends report_writer s n t) (some-injective _ _ e) (writer-Spends s t)
run_node-Spends report_eval next a s t ready h e = cc

visit_node-Spends :
    (node next : Node) (a : Answers) (s t : InvestigationState)
    → Ready node s
    → visit_node node a s ≡ ok t
    → next_node node t ≡ some next
    → Spends node s next t
unfolding visit_node
visit_node-Spends node next a s t ready h e =
    after (λ t. next_node node t ≡ some next → Spends node s next t) (rebuild s) _
      (λ v k ran e.
        let same = rebuild-eq s k in
        let spent =
          run_node-Spends node next a v _ (subst (Ready node) same (trimmed-Ready s node ready)) ran
            e in
        (
          spent.0,
          subst (λ n. suc (budget next t) ≤ n) (ap (budget node) (sym same) ∙ trimmed-budget s node)
              spent.1,
        ))
      h e

budget-pos : (node : Node) (s : InvestigationState) → 1 ≤ budget node s
unfolding budget planner_budget guard_budget router_budget
budget-pos resolve_hosts s = ground arith
budget-pos establish_phenomenon s = ground arith
budget-pos hypothesis_planner s = ground arith
budget-pos observation_planner s = ground arith
budget-pos tool_router s = ground arith
budget-pos tool_executor s = ground arith
budget-pos evidence_normalizer s = ground arith
budget-pos hypothesis_updater s = ground arith
budget-pos stop_guard s = ground arith
budget-pos _ s = omega arith

pub Run-bounded :
    {node : Node} {s last : InvestigationState} {n : ℕ}
    → Run node s n last
    → Ready node s
    → n ≤ budget node s
Run-bounded (finish node a s last h e) ready = budget-pos node s
Run-bounded (step node next a s t last h e run) ready =
    let spent = visit_node-Spends node next a s t ready h e in
    let rest = Run-bounded run spent.0 in ground arith

-- No question is left from an earlier turn, and none was counted.
abbrev pub Fresh : InvestigationState → Type 0
Fresh s = (s.iteration_count ≡ 0) × (s.routing_attempts ≡ 0) × (is_empty s.next_questions ≡ true)

Fresh-budget :
    (s : InvestigationState)
    → Fresh s
    → 1 ≤ s.limits.max_iterations
    → budget resolve_hosts s ≡ 10 + 6 * s.limits.max_iterations
unfolding budget planner_budget
Fresh-budget s fresh some_turn = ground arith

-- A run of the graph from a state with no iteration counted, no refused routing and no question,
-- whose limit on iterations is at least 1, visits at most 10 + 6 * max_iterations nodes.
pub Run-visits :
    (s last : InvestigationState) (n : ℕ)
    → Fresh s
    → 1 ≤ s.limits.max_iterations
    → Run resolve_hosts s n last
    → n ≤ 10 + 6 * s.limits.max_iterations
unfolding Ready
Run-visits s last n fresh some_turn run =
    subst (λ k. n ≤ k) (Fresh-budget s fresh some_turn) (Run-bounded run fresh.2)

some-none : (t : InvestigationState) → ¬ (ok (some t) ≡ ok none)
some-none t h = cc

drive-ends_from :
    (fuel : ℕ) (answers : ℕ → Answers) (node : Node) (s : InvestigationState)
    → Ready node s
    → budget node s ≤ fuel
    → ¬ (drive fuel answers node s ≡ ok none)
unfolding drive
drive-ends_from zero answers node s ready enough h = ground (arith, budget-pos node s)
drive-ends_from (suc fuel) answers node s ready enough h =
    after (λ _. ⊥) (visit_node node (answers fuel) s) _
      (λ t ran e. elim (Option-cases (next_node node t)) [
        | inl last ↦ some-none t (rw last at e)
        | inr (next, onward) ↦
            let spent = visit_node-Spends node next (answers fuel) s t ready ran onward in
            drive-ends_from fuel answers next t spent.0 (ground arith) (rw onward at e)
      ])
      h

-- From a state with no iteration counted, no refused routing and no question, whose limit on
-- iterations is at least 1, the graph under a limit of 10 + 6 * max_iterations visits comes to its
-- end or raises: it never uses them up, whatever the model, the tools and the clock answer.
pub drive-ends :
    (s : InvestigationState) (answers : ℕ → Answers)
    → Fresh s
    → 1 ≤ s.limits.max_iterations
    → ¬ (drive (10 + 6 * s.limits.max_iterations) answers resolve_hosts s ≡ ok none)
unfolding Ready
drive-ends s answers fresh some_turn = drive-ends_from _ answers resolve_hosts s fresh.2 (
    subst (λ k. k ≤ 10 + 6 * s.limits.max_iterations) (sym (Fresh-budget s fresh some_turn))
      (omega arith))
