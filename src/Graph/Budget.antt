-- ===== src/Graph/Budget.antt =====
-- A bound on the visits that remain, node by node, and that each visit uses one of them.
use aiops_rca_orchestrator.Common.{
  ℕ, suc, ◌+◌, ◌*◌, ◌-◌, ◌≤◌, ◌≡◌, refl, true, false, ◌⊎◌, arith, is_empty, leb, if◌then◌else◌,
}
use aiops_rca_orchestrator.Common.Outcome.{ok, required}
use aiops_rca_orchestrator.State.{InvestigationState, is_set, rebuild, bound_what_only_grows}
use aiops_rca_orchestrator.State.Ceiling.{validate-eq}
use aiops_rca_orchestrator.Graph.Routing.{
  Node, resolve_hosts, establish_phenomenon, hypothesis_planner, observation_planner, tool_router,
  tool_executor, evidence_normalizer, hypothesis_updater, stop_guard, evidence_package_builder,
  report_writer, report_eval, route_after_host_resolution, route_after_evidence_normalizer,
  route_after_stop_guard, route_after_tool_router,
}
use aiops_rca_orchestrator.Graph.Effects.{RouterExit, Counts, Keeps}

-- From a planner that may still plan: turns of six visits, refused turns of two.
unfoldable pub planner_budget : (max_iterations iterations attempts : ℕ) → ℕ
planner_budget m i r = if leb m i then 9 + 2 * (2 - r) else 6 * (m - i) + 7

-- From the router with questions, whose iteration is counted.
unfoldable pub router_budget : (max_iterations iterations attempts : ℕ) → ℕ
router_budget m i r = if leb (suc m) i then 8 + 2 * (2 - r) else 6 * (suc m - i) + 6

unfoldable pub guard_budget : (max_iterations iterations attempts : ℕ) → ℕ
unfolding planner_budget
guard_budget m i r = if leb m i then 4 else suc (planner_budget m i r)

abbrev pub left : (ℕ → ℕ → ℕ → ℕ) → InvestigationState → ℕ
left count s = count s.limits.max_iterations s.iteration_count s.routing_attempts

-- The visits that remain, this one included.
unfoldable pub budget : Node → InvestigationState → ℕ
unfolding planner_budget router_budget guard_budget
budget resolve_hosts s = 3 + left planner_budget s
budget establish_phenomenon s = 2 + left planner_budget s
budget hypothesis_planner s = 1 + left planner_budget s
budget observation_planner s = if is_set s.stop_reason then 5 else left planner_budget s
budget tool_router s = if is_empty s.next_questions then 4 else left router_budget s
budget tool_executor s = 3 + left guard_budget s
budget evidence_normalizer s = 2 + left guard_budget s
budget hypothesis_updater s = 1 + left guard_budget s
budget stop_guard s = left guard_budget s
budget evidence_package_builder s = 3
budget report_writer s = 2
budget report_eval s = 1

-- No question is left over where none may be.
unfoldable pub Ready : Node → InvestigationState → Type 0
Ready resolve_hosts s = is_empty s.next_questions ≡ true
Ready establish_phenomenon s = is_empty s.next_questions ≡ true
Ready hypothesis_planner s = is_empty s.next_questions ≡ true
Ready observation_planner s = (is_set s.stop_reason ≡ false) ⊎ (is_empty s.next_questions ≡ true)
Ready _ s = Unit {0}

module _ (s : InvestigationState) where
  pub trimmed-Keeps :
      Keeps s (bound_what_only_grows s) × ((bound_what_only_grows s).stop_reason ≡ s.stop_reason)
  unfolding bound_what_only_grows
  trimmed-Keeps = ground arith

  pub trimmed-Ready : (node : Node) → Ready node s → Ready node (bound_what_only_grows s)
  unfolding Ready
  trimmed-Ready resolve_hosts r = ground (arith, trimmed-Keeps)
  trimmed-Ready establish_phenomenon r = ground (arith, trimmed-Keeps)
  trimmed-Ready hypothesis_planner r = ground (arith, trimmed-Keeps)
  trimmed-Ready observation_planner r = ground (arith, trimmed-Keeps)
  trimmed-Ready _ r = tt

  pub trimmed-budget : (node : Node) → budget node (bound_what_only_grows s) ≡ budget node s
  unfolding budget
  trimmed-budget resolve_hosts = ground (arith, trimmed-Keeps)
  trimmed-budget establish_phenomenon = ground (arith, trimmed-Keeps)
  trimmed-budget hypothesis_planner = ground (arith, trimmed-Keeps)
  trimmed-budget observation_planner = ground (arith, trimmed-Keeps)
  trimmed-budget tool_router = ground (arith, trimmed-Keeps)
  trimmed-budget tool_executor = ground (arith, trimmed-Keeps)
  trimmed-budget evidence_normalizer = ground (arith, trimmed-Keeps)
  trimmed-budget hypothesis_updater = ground (arith, trimmed-Keeps)
  trimmed-budget stop_guard = ground (arith, trimmed-Keeps)
  trimmed-budget _ = refl

  pub rebuild-eq : {t : InvestigationState} → rebuild s ≡ ok t → bound_what_only_grows s ≡ t
  unfolding rebuild
  rebuild-eq h = validate-eq (bound_what_only_grows s) ((required _ _ _ h).1)

abbrev pub Spends : Node → InvestigationState → Node → InvestigationState → Type 0
Spends node s next t = Ready next t × suc (budget next t) ≤ budget node s

module _ (s t : InvestigationState) where
  pub hosts-Spends :
      (next : Node)
      → is_empty s.next_questions ≡ true
      → Keeps s t
      → route_after_host_resolution t ≡ next
      → Spends resolve_hosts s next t
  unfolding route_after_host_resolution budget planner_budget Ready
  hosts-Spends next ready k e = ground arith

  pub establish-Spends :
      is_empty s.next_questions ≡ true
      → Keeps s t
      → Spends establish_phenomenon s hypothesis_planner t
  unfolding budget planner_budget Ready
  establish-Spends ready k = ground arith

  pub hypotheses-Spends :
      is_empty s.next_questions ≡ true
      → Keeps s t
      → Spends hypothesis_planner s observation_planner t
  unfolding budget planner_budget Ready
  hypotheses-Spends ready k = ground arith

  pub executor-Spends : Counts s t → Spends tool_executor s evidence_normalizer t
  unfolding budget Ready
  executor-Spends k = ground arith

  pub normalizer-Spends :
      (next : Node)
      → Counts s t
      → route_after_evidence_normalizer t ≡ next
      → Spends evidence_normalizer s next t
  unfolding budget Ready guard_budget planner_budget route_after_evidence_normalizer
  normalizer-Spends next k e = ground arith

  pub package-Spends : Spends evidence_package_builder s report_writer t
  unfolding budget Ready
  package-Spends = ground arith

  pub writer-Spends : Spends report_writer s report_eval t
  unfolding budget Ready
  writer-Spends = ground arith

  pub updater-Spends : Counts s t → Spends hypothesis_updater s stop_guard t
  unfolding budget Ready
  updater-Spends k = ground arith

  pub planner-Spends :
      Ready observation_planner s
      → (t.limits ≡ s.limits)
      → (t.routing_attempts ≡ s.routing_attempts)
      → ((is_set s.stop_reason ≡ true)
            × (t.iteration_count ≡ s.iteration_count)
            × (t.next_questions ≡ s.next_questions)
          ⊎ (is_set s.stop_reason ≡ false) × (t.iteration_count ≡ suc s.iteration_count))
      → Spends observation_planner s tool_router t
  unfolding budget planner_budget router_budget Ready
  planner-Spends ready l r k = ground arith

  pub router-Spends :
      (next : Node)
      → RouterExit s t
      → route_after_tool_router t ≡ next
      → Spends tool_router s next t
  unfolding budget planner_budget guard_budget router_budget Ready route_after_tool_router
  router-Spends next k e = ground arith

  pub guard-Spends :
      (next : Node)
      → Counts s t
      → (s.limits.max_iterations ≤ s.iteration_count → is_set t.stop_reason ≡ true)
      → route_after_stop_guard t ≡ next
      → Spends stop_guard s next t
  unfolding budget guard_budget planner_budget Ready route_after_stop_guard
  guard-Spends next k stops e = ground arith
