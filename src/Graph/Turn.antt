-- ===== src/Graph/Turn.antt =====
-- One turn of the router and the executor: `ToolRouterNode`, then `ToolExecutorNode`.
use aiops_rca_orchestrator.Common.{◌≤◌, ◌≡◌, refl, subst, false, [], is_empty, length, arith}
use aiops_rca_orchestrator.Common.Outcome.{ok, ok-injective, returned, either}
use aiops_rca_orchestrator.State.{InvestigationState}
use aiops_rca_orchestrator.Nodes.World.{World, visit}
use aiops_rca_orchestrator.Nodes.Router.{Routing, routed, no_question, route_questions, tool_router}
use aiops_rca_orchestrator.Nodes.Executor.{tool_executor}
use aiops_rca_orchestrator.Nodes.Budgets.{tool_router-within_budget, tool_executor-Accounts}
use aiops_rca_orchestrator.Graph.Effects.{tool_router-exits, tool_executor-Counts}

abbrev SameResults : InvestigationState → InvestigationState → Type 0
SameResults s t = t.tool_results ≡ s.tool_results

routed-SameResults :
    (s : InvestigationState) (r : Routing) → SameResults s (visit "tool_router" (routed s r))
unfolding routed
routed-SameResults s r = ground arith

tool_router-SameResults :
    (w : World) (s t : InvestigationState) → tool_router w s ≡ ok t → SameResults s t
unfolding tool_router
tool_router-SameResults w s t =
    either (SameResults s) (is_empty s.next_questions) _ _
      (λ h. subst (SameResults s) (ok-injective (visit "tool_router" (no_question s)) t h) refl)
      (returned (SameResults s)
        (route_questions w s s.next_questions
          (record { planned = []; unknowns = s.unknowns; refusals = [] }))
        _ (routed-SameResults s))

-- From a state whose count of calls is the number of its results and is within the limit on tool
-- calls, a router that plans some call and an executor that runs the plan, both returning, leave
-- the count within the limit.
pub turn-within_budget :
    (w v : World) (s t u : InvestigationState)
    → s.tool_call_count ≡ length s.tool_results
    → s.tool_call_count ≤ s.limits.max_tool_calls
    → tool_router w s ≡ ok t
    → is_empty t.planned_tool_calls ≡ false
    → tool_executor v t ≡ ok u
    → u.tool_call_count ≤ u.limits.max_tool_calls
turn-within_budget w v s t u counted fits routed_ok planned ran =
    let exits = tool_router-exits s w routed_ok in
    let same = tool_router-SameResults w s t routed_ok in
    let room = tool_router-within_budget w s t fits routed_ok in
    let accounts = tool_executor-Accounts v t u planned ran in
    let counts = tool_executor-Counts t v ran in ground arith
