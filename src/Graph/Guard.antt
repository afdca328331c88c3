-- ===== src/Graph/Guard.antt =====
-- When the loop of the investigation goes on: `StopGuardNode` and `route_after_stop_guard`.
use aiops_rca_orchestrator.Common.{
  ◌*◌, ◌≡◌, if◌then◌else◌, ap, refl, Bool, true, ◌||◌, some, leb, is_empty, arith, ◌=ₜ◌,
}
use aiops_rca_orchestrator.Schema.Investigation.{Moment}
use aiops_rca_orchestrator.State.{InvestigationState, is_set, elapsed}
use aiops_rca_orchestrator.Nodes.World.{text_or}
use aiops_rca_orchestrator.Graph.Routing.{
  observation_planner, evidence_package_builder, limit_update, hard_stop_update, guard_stop,
  route_after_stop_guard,
}
use aiops_rca_orchestrator.Graph.Effects.{
  is_set-calls, is_set-iterations, is_set-hosts, is_set-fatal,
}

-- A limit on calls, iterations or time is reached.
abbrev pub limits_reached : InvestigationState → Moment → Bool
limits_reached s now =
    leb s.limits.max_tool_calls s.tool_call_count
    || (leb s.limits.max_iterations s.iteration_count
        || leb (s.limits.max_duration_seconds * 1000000) (elapsed s now))

-- Nothing can be investigated, or a limit is reached.
abbrev pub must_stop : InvestigationState → Moment → Bool
must_stop s now = is_set s.fatal_error || (is_empty s.hosts || limits_reached s now)

is_set-duration : is_set (some "maximum investigation duration reached") ≡ true
unfolding is_set ◌=ₜ◌
is_set-duration = refl

limit_update-is_set :
    (s : InvestigationState) (now : Moment)
    → is_set (limit_update s now).stop_reason ≡ (is_set s.stop_reason || limits_reached s now)
unfolding limit_update
limit_update-is_set s now = ground (arith, is_set-calls, is_set-iterations, is_set-duration)

guard_stop-is_set :
    (s : InvestigationState) (now : Moment)
    → is_set (guard_stop now s).stop_reason ≡ (is_set s.stop_reason || must_stop s now)
unfolding guard_stop hard_stop_update
guard_stop-is_set s now =
    ground (arith, is_set-hosts, is_set-fatal (text_or s.fatal_error ""), limit_update-is_set s now)

-- The loop goes back to the planner exactly if no stop was chosen before, there is no fatal error,
-- some host is resolved, and neither the calls, the iterations nor the time have reached their
-- limit; else the evidence package is built.
pub guard_stop-continues :
    (s : InvestigationState) (now : Moment)
    → route_after_stop_guard (guard_stop now s) ≡ (
        if is_set s.stop_reason || must_stop s now
        then evidence_package_builder
        else observation_planner)
unfolding route_after_stop_guard
guard_stop-continues s now =
    ap (λ b. if b then evidence_package_builder else observation_planner) (guard_stop-is_set s now)
