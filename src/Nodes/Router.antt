-- ===== src/Nodes/Router.antt =====
-- `ToolRouterNode` of graph/deterministic_nodes.py.
use aiops_rca_orchestrator.Common.{
  ℕ, suc, ◌+◌, Bool, false, not, ◌&&◌, none, some, String, List, [], ◌∷◌, ◌++◌, leb, ◌=ₜ◌,
  if◌then◌else◌, length, is_empty,
}
use aiops_rca_orchestrator.Common.Text.{◌<>◌}
use aiops_rca_orchestrator.Common.Dict.{Dict}
use aiops_rca_orchestrator.Common.Value.{Value, str, get}
use aiops_rca_orchestrator.Common.Outcome.{Outcome, ok, raised, tool_policy_error, ◌>>=◌}
use aiops_rca_orchestrator.Schema.Investigation.{
  ObservationQuestion, PlannedToolCall, planned_tool_call, UnknownItem,
}
use aiops_rca_orchestrator.Registry.{
  TemporalScope, historical, current_only, any_time, RoutingContext, ToolPolicy, validate_call,
}
use aiops_rca_orchestrator.State.{InvestigationState, declared_window_policy}
use aiops_rca_orchestrator.Nodes.World.{World, visit, note, host_id_of}

abbrev pub max_routing_attempts : ℕ
max_routing_attempts = 2

abbrev scope_of : Value → TemporalScope
scope_of (str scope) =
    if scope =ₜ "current_only"
    then current_only
    else if scope =ₜ "historical"
    then historical
    else any_time
scope_of _ = any_time

abbrev named : String → Value → Bool
named name (str other) = other =ₜ name
named name _ = false

-- `_catalog_scope`. Every scope but the two that are named reads as "any".
unfoldable pub catalog_scope : List (Dict Value) → String → TemporalScope
catalog_scope [] name = any_time
catalog_scope (item ∷ catalog) name =
    if named name (get "name" item)
    then scope_of (get "temporal_scope" item)
    else catalog_scope catalog name

-- The variables of the loop.
pub record Routing : Type 0 where
  pub planned : List PlannedToolCall
  pub unknowns : List UnknownItem
  pub refusals : List String

unfoldable pub question_context :
    InvestigationState → ObservationQuestion → List PlannedToolCall → RoutingContext
unfolding declared_window_policy
question_context state question planned = record {
  temporal_scope = question.temporal_scope;
  generic_fallback_allowed = question.generic_fallback_allowed;
  tool_call_count = state.tool_call_count + length planned;
  max_tool_calls = state.limits.max_tool_calls;
  declared_window_policy = declared_window_policy state;
}

-- The verdict of the registry on one question becomes a call or a note.
unfoldable pub route_verdict :
    InvestigationState → ObservationQuestion → Routing → Outcome ToolPolicy → Outcome Routing
route_verdict state question r (ok policy) =
    planned_tool_call policy.name question.arguments question.question
      question.discriminates_hypothesis_ids question.host (host_id_of state.hosts question.host)
    >>= λ call. ok (record r { planned = r.planned ++ call ∷ [] })
route_verdict state question r (raised (tool_policy_error message retryable)) =
    note "tool_routing_blocked" message none r.unknowns >>= λ unknowns. ok (record r {
      unknowns = unknowns;
      refusals = if retryable then r.refusals ++ message ∷ [] else r.refusals;
    })
route_verdict state question r (raised exception) = raised exception

unfoldable pub route_tool :
    World → InvestigationState → ObservationQuestion → Routing → String → Outcome Routing
unfolding route_verdict question_context catalog_scope
route_tool w state question r tool = route_verdict state question r (
    validate_call w.rt w.registry tool question.arguments
      (question_context state question r.planned) (catalog_scope state.tool_catalog tool))

-- One round of the loop over the questions.
unfoldable pub route_question :
    World → InvestigationState → ObservationQuestion → Routing → Outcome Routing
unfolding route_tool
route_question w state question r = elim question.required_tool [
  | none ↦ ok r
  | some tool ↦ if tool =ₜ "" then ok r else route_tool w state question r tool
]

unfoldable pub route_questions :
    World → InvestigationState → List ObservationQuestion → Routing → Outcome Routing
unfolding route_question
route_questions w state [] r = ok r
route_questions w state (question ∷ questions) r =
    route_question w state question r >>= λ next. route_questions w state questions next

abbrev pub first_or : List String → String → String
first_or [] default = default
first_or (s ∷ ss) default = s

-- What the node returns once every question has its verdict.
unfoldable pub routed : InvestigationState → Routing → InvestigationState
routed state r =
    if not (is_empty r.planned)
    then record state {
      planned_tool_calls = r.planned;
      routing_rejections = [];
      routing_attempts = 0;
      unknowns = r.unknowns;
    }
    else if not (is_empty r.refusals) && leb (suc state.routing_attempts) max_routing_attempts
    then record state {
      planned_tool_calls = [];
      next_questions = [];
      unknowns = r.unknowns;
      routing_rejections = state.routing_rejections ++ r.refusals;
      routing_attempts = suc state.routing_attempts;
    }
    else record state {
      stop_reason = some (
          "the next observation could not be routed: "
          <> first_or r.refusals "no proposal was allowed");
      planned_tool_calls = [];
      unknowns = r.unknowns;
      routing_rejections = state.routing_rejections ++ r.refusals;
      routing_attempts = suc state.routing_attempts;
    }

abbrev pub no_question : InvestigationState → InvestigationState
no_question state = record state {
  stop_reason = some "no routable observation question remains";
  planned_tool_calls = [];
}

-- `ToolRouterNode.__call__`
unfoldable pub tool_router : World → InvestigationState → Outcome InvestigationState
unfolding route_questions routed
tool_router w state =
    if is_empty state.next_questions
    then ok (visit "tool_router" (no_question state))
    else (route_questions w state state.next_questions
          (record { planned = []; unknowns = state.unknowns; refusals = [] })
        >>= λ r. ok (visit "tool_router" (routed state r)))
