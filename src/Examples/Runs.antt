-- ===== src/Examples/Runs.antt =====
-- The bounds on a run, at concrete runs.
use aiops_rca_orchestrator.Common.{◌≤◌, ◌+◌, ◌*◌, ◌≡◌, refl, arith, none, Bool, true, false, ◌=ₜ◌}
use aiops_rca_orchestrator.Common.Outcome.{Outcome, ok, raised}
use aiops_rca_orchestrator.Graph.{
  resolve_hosts, evidence_package_builder, report_writer, report_eval, drive, Run, finish, step,
  visit_node, next_node,
}
use aiops_rca_orchestrator.Common.Text.{within, within_optional}
use aiops_rca_orchestrator.Registry.{validate_call}
use aiops_rca_orchestrator.Schema.Investigation.{planned_tool_call, unknown_item}
use aiops_rca_orchestrator.State.{InvestigationState}
use aiops_rca_orchestrator.Graph.Bound.{Run-visits, drive-ends}
use aiops_rca_orchestrator.Graph.Turn.{turn-within_budget}
use aiops_rca_orchestrator.Nodes.Router.{tool_router}
use aiops_rca_orchestrator.Nodes.Executor.{tool_executor}
use aiops_rca_orchestrator.Examples.Samples.{started, asked, asking, answers, world}

unfoldable reached : Outcome InvestigationState → InvestigationState
reached (ok s) = s
reached (raised e) = started

-- No host is asked for, so the run goes from the hosts to the package, the report and the check.
unfoldable searched : InvestigationState
unfolding visit_node reached
searched = reached (visit_node resolve_hosts answers started)

unfoldable packed : InvestigationState
unfolding visit_node reached searched
packed = reached (visit_node evidence_package_builder answers searched)

unfoldable written : InvestigationState
unfolding visit_node reached packed
written = reached (visit_node report_writer answers packed)

unfoldable checked : InvestigationState
unfolding visit_node reached written
checked = reached (visit_node report_eval answers written)

is_ok : Outcome InvestigationState → Bool
is_ok (ok s) = true
is_ok (raised e) = false

reached-eq : (m : Outcome InvestigationState) → is_ok m ≡ true → m ≡ ok (reached m)
unfolding is_ok reached
reached-eq (ok s) h = refl
reached-eq (raised e) h = absurd cc

searched-eq : visit_node resolve_hosts answers started ≡ ok searched
unfolding visit_node is_ok searched ◌=ₜ◌
searched-eq = reached-eq (visit_node resolve_hosts answers started) refl

packed-eq : visit_node evidence_package_builder answers searched ≡ ok packed
unfolding visit_node is_ok reached searched packed ◌=ₜ◌
packed-eq = reached-eq (visit_node evidence_package_builder answers searched) refl

written-eq : visit_node report_writer answers packed ≡ ok written
unfolding visit_node is_ok reached searched packed written ◌=ₜ◌
written-eq = reached-eq (visit_node report_writer answers packed) refl

checked-eq : visit_node report_eval answers written ≡ ok checked
unfolding visit_node is_ok reached searched packed written checked ◌=ₜ◌
checked-eq = reached-eq (visit_node report_eval answers written) refl

no_host_run : Run resolve_hosts started 4 checked
unfolding next_node visit_node reached searched ◌=ₜ◌
no_host_run =
    step resolve_hosts evidence_package_builder answers started searched checked searched-eq refl (
      step evidence_package_builder report_writer answers searched packed checked packed-eq refl (
        step report_writer report_eval answers packed written checked written-eq refl
          (finish report_eval answers written checked checked-eq refl)))

Run-visits_example : 4 ≤ 10 + 6 * started.limits.max_iterations
Run-visits_example = Run-visits started checked 4 (refl, refl, refl) (omega arith) no_host_run

drive-ends_example :
    ¬ (drive (10 + 6 * asked.limits.max_iterations) (λ k. answers) resolve_hosts asked ≡ ok none)
drive-ends_example = drive-ends asked (λ k. answers) (refl, refl, refl) (omega arith)

unfoldable turn_routed : InvestigationState
unfolding tool_router reached
turn_routed = reached (tool_router world asking)

unfoldable turn_executed : InvestigationState
unfolding tool_executor reached turn_routed
turn_executed = reached (tool_executor world turn_routed)

turn-within_budget_example : turn_executed.tool_call_count ≤ turn_executed.limits.max_tool_calls
unfolding tool_router tool_executor reached turn_routed turn_executed ◌=ₜ◌ validate_call
    planned_tool_call within within_optional unknown_item
turn-within_budget_example =
    turn-within_budget world world asking turn_routed turn_executed refl (omega arith) refl refl
      refl
