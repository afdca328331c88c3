-- ===== src/Graph/Routing.antt =====
-- graph/routing.py and `StopGuardNode` of graph/deterministic_nodes.py.
use aiops_rca_orchestrator.Common.{
  ◌*◌, true, not, ◌||◌, Option, none, some, String, leb, if◌then◌else◌, is_empty,
}
use aiops_rca_orchestrator.Common.Text.{◌<>◌}
use aiops_rca_orchestrator.Schema.Investigation.{Moment}
use aiops_rca_orchestrator.State.{InvestigationState, is_set, elapsed}
use aiops_rca_orchestrator.Nodes.World.{visit, text_or}

pub data Node : Type 0 where
  resolve_hosts establish_phenomenon hypothesis_planner observation_planner : Node
  tool_router tool_executor evidence_normalizer hypothesis_updater stop_guard : Node
  evidence_package_builder report_writer report_eval : Node

abbrev pub stopped : String → InvestigationState → InvestigationState
stopped reason state = record state { stop_reason = some reason }

abbrev pub limited : String → InvestigationState → InvestigationState
limited reason state = record state { stop_reason = some reason; limit_reached = true }

-- The limits on calls, iterations and time, in the order of `hard_stop_update`.
unfoldable pub limit_update : InvestigationState → Moment → InvestigationState
unfolding elapsed
limit_update state now =
    if leb state.limits.max_tool_calls state.tool_call_count
    then limited "maximum tool-call budget reached" state
    else if leb state.limits.max_iterations state.iteration_count
    then limited "maximum investigation iterations reached" state
    else if leb (state.limits.max_duration_seconds * 1000000) (elapsed state now)
    then limited "maximum investigation duration reached" state
    else state

-- `hard_stop_update(state, now=now)`, applied to the state.
unfoldable pub hard_stop_update : InvestigationState → Moment → InvestigationState
unfolding limit_update is_set
hard_stop_update state now =
    if is_set state.fatal_error
    then stopped ("fatal state error: " <> text_or state.fatal_error "") state
    else if is_empty state.hosts
    then stopped "no host could be resolved for investigation" state
    else limit_update state now

-- `StopGuardNode.__call__`
unfoldable pub guard_stop : Moment → InvestigationState → InvestigationState
unfolding hard_stop_update
guard_stop now state = visit "stop_guard" (hard_stop_update state now)

-- `route_after_host_resolution`
unfoldable pub route_after_host_resolution : InvestigationState → Node
unfolding is_set
route_after_host_resolution state =
    if is_set state.stop_reason || (is_set state.fatal_error || is_empty state.hosts)
    then evidence_package_builder
    else establish_phenomenon

-- `route_after_evidence_normalizer`
unfoldable pub route_after_evidence_normalizer : InvestigationState → Node
unfolding is_set
route_after_evidence_normalizer state =
    if is_set state.fatal_error || is_empty state.last_observations
    then stop_guard
    else hypothesis_updater

-- `route_after_stop_guard`
unfoldable pub route_after_stop_guard : InvestigationState → Node
unfolding is_set
route_after_stop_guard state =
    if is_set state.stop_reason then evidence_package_builder else observation_planner

-- `route_after_tool_router`
unfoldable pub route_after_tool_router : InvestigationState → Node
unfolding is_set
route_after_tool_router state =
    if is_set state.fatal_error
    then evidence_package_builder
    else if not (is_empty state.planned_tool_calls)
    then tool_executor
    else if is_set state.stop_reason
    then evidence_package_builder
    else if not (is_empty state.routing_rejections)
    then observation_planner
    else evidence_package_builder

-- `route_after_report_eval`: `none` is END.
unfoldable pub route_after_report_eval : InvestigationState → Option Node
route_after_report_eval state = none
