-- ===== src/Nodes/Hosts.antt =====
-- `ResolveHostsNode` of graph/deterministic_nodes.py. The selector of the template only reaches the
-- prompt, so it is no part of the model.
use aiops_rca_orchestrator.Common.{
  ℕ, zero, suc, ◌+◌, Bool, true, not, ◌&&◌, ◌||◌, inl, inr, Option, none, some, String, List, [],
  ◌∷◌, ◌++◌, map, leb, ◌==◌, ◌=ₜ◌, if◌then◌else◌, length, is_empty, any, keep, find,
}
use aiops_rca_orchestrator.Common.Text.{
  ◌<>◌, text_take, text_contains, join, sort, optional_eq, dedupe_from,
}
use aiops_rca_orchestrator.Common.Dict.{Dict, insert, set_default, values}
use aiops_rca_orchestrator.Common.Value.{Value, Runtime}
use aiops_rca_orchestrator.Common.Outcome.{Outcome, ok, raised, tool_policy_error, ◌>>=◌}
use aiops_rca_orchestrator.Schema.Investigation.{
  ResolvedHost, timeless, ToolExecutionStatus, ToolExecutionResult, is_error, planned_tool_call,
  UnknownItem, unknown_item,
}
use aiops_rca_orchestrator.Schema.Decisions.{DiscoveredHost, HostSearchDecision}
use aiops_rca_orchestrator.Registry.{RoutingContext}
use aiops_rca_orchestrator.State.{InvestigationState, declared_window_policy}
use aiops_rca_orchestrator.Nodes.World.{World, visit, note, text_or, decoded_object}

abbrev pub max_host_search_turns : ℕ
max_host_search_turns = 2

abbrev purpose : String
purpose = "Resolve the requested investigation hosts"

-- `_matching_query`
unfoldable pub matching_query : Runtime → String → List String → Option String
unfolding text_contains
matching_query rt host queries =
    find
      (λ query.
        text_contains (rt.casefold query) (rt.casefold host)
        || text_contains (rt.casefold host) (rt.casefold query))
      queries

-- What the model reads of an earlier lookup.
pub record Attempt : Type 0 where
  pub tool_name : String
  pub arguments : Dict Value
  pub status : ToolExecutionStatus
  pub response : String

-- The variables of the search.
pub record Search : Type 0 where
  pub found : List ResolvedHost
  pub unknowns : List UnknownItem
  pub produced : List ToolExecutionResult
  pub seen : List Attempt

add_host : Runtime → List String → List ResolvedHost → DiscoveredHost → List ResolvedHost
unfolding matching_query
add_host rt wanted found item =
    if any (λ h. item.host =ₜ h.host) found
    then found
    else found
      ++ (record {
        host = item.host;
        host_id = item.host_id;
        query = matching_query rt item.host wanted;
        found_by = some item.found_by;
      })
        ∷ []

-- The loop over the hosts of a decision.
unfoldable pub add_hosts :
    Runtime → List String → List ResolvedHost → List DiscoveredHost → List ResolvedHost
unfolding add_host
add_hosts rt wanted found [] = found
add_hosts rt wanted found (item ∷ rest) = add_hosts rt wanted (add_host rt wanted found item) rest

-- The queries that no host has answered yet.
unfoldable pub still : List String → List ResolvedHost → List String
still wanted found = keep (λ query. not (any (λ h. optional_eq h.query (some query)) found)) wanted

abbrev or_default : String → String → String
or_default text default = if text =ₜ "" then default else text

-- How a turn ends: the search goes on, or stops here.
pub data Turn : Type 0 where
  more stop : Search → Turn

stop_with : String → String → Search → Outcome Turn
stop_with code message s =
    note code message none s.unknowns >>= λ unknowns. ok (stop (record s { unknowns = unknowns }))

search_context : InvestigationState → Search → RoutingContext
unfolding declared_window_policy
search_context state s = record {
  temporal_scope = timeless;
  generic_fallback_allowed = true;
  tool_call_count = length state.tool_results + length s.produced;
  max_tool_calls = state.limits.max_tool_calls;
  declared_window_policy = declared_window_policy state;
}

error_note : String → ToolExecutionResult → List UnknownItem → Outcome (List UnknownItem)
error_note tool result unknowns =
    if is_error result.status
    then note "host_search_error" (text_or result.error (tool <> " failed"))
        (some result.tool_call_id) unknowns
    else ok unknowns

answered : World → String → Dict Value → Search → Outcome ToolExecutionResult → Outcome Turn
unfolding stop_with error_note text_take
answered w tool arguments s (ok result) = error_note tool result s.unknowns >>= λ unknowns. ok (
    more (record {
      found = s.found;
      unknowns = unknowns;
      produced = s.produced ++ result ∷ [];
      seen =
          s.seen
          ++ (record {
            tool_name = tool;
            arguments = arguments;
            status = result.status;
            response = text_take 8000 (w.rt.dumps result.response);
          })
            ∷ [];
    }))
answered w tool arguments s (raised (tool_policy_error message retryable)) =
    stop_with "host_search_blocked" (tool <> (": " <> message)) s
answered w tool arguments s (raised exception) = raised exception

-- The lookup of a turn.
look_up : World → InvestigationState → String → String → Search → Outcome Turn
unfolding answered stop_with search_context
look_up w state tool arguments_json s = elim (decoded_object (w.rt.loads arguments_json)) [
  | inr reason ↦ stop_with "host_search_unusable" (tool <> (": " <> reason)) s
  | inl arguments ↦ planned_tool_call tool arguments purpose [] none none >>= λ planned.
      answered w tool arguments s (w.execute (length s.produced) planned (search_context state s))
]

decide :
    World → InvestigationState → List String → Bool → HostSearchDecision → Search → Outcome Turn
unfolding add_hosts look_up
decide w state wanted reading_only decision s =
    let read : Search = record s { found = add_hosts w.rt wanted s.found decision.hosts } in
    if reading_only || text_or decision.tool_name "" =ₜ ""
    then ok (stop read)
    else look_up w state (text_or decision.tool_name "") decision.arguments_json read

-- One turn of the search.
unfoldable pub search_turn :
    World → InvestigationState → List String → Bool → HostSearchDecision → Search → Outcome Turn
unfolding still stop_with decide join
search_turn w state wanted reading_only decision s =
    if not (is_empty s.found) && is_empty (still wanted s.found)
    then ok (stop s)
    else if reading_only && is_empty s.seen
    then ok (stop s)
    else if not reading_only
        && leb state.limits.max_tool_calls (length state.tool_results + length s.produced)
    then stop_with "host_search_budget_exhausted"
        ("The tool-call budget was exhausted before "
          <> (or_default (join ", " wanted) "the requested hosts" <> " could be looked for."))
        s
    else decide w state wanted reading_only decision s

-- The turns that are left; the last of them only reads. `ask` is the model, by turns left.
unfoldable pub search_from :
    World
    → InvestigationState
    → List String
    → (ℕ → Search → HostSearchDecision)
    → ℕ
    → Search
    → Outcome Search
unfolding search_turn
search_from w state wanted ask zero s = ok s
search_from w state wanted ask (suc left) s =
    search_turn w state wanted (left == 0) (ask left s) s
    >>= elim [ more next ↦ search_from w state wanted ask left next | stop last ↦ ok last ]

-- `ResolveHostsNode._search`
unfoldable pub search :
    World → InvestigationState → List String → (ℕ → Search → HostSearchDecision) → Outcome Search
unfolding search_from
search w state wanted ask =
    search_from w state wanted ask (suc max_host_search_turns)
      (record { found = []; unknowns = []; produced = []; seen = [] })

-- The variables of the loop over the queries.
pub record Resolving : Type 0 where
  pub resolved : Dict ResolvedHost
  pub unresolved : List String
  pub unknowns : List UnknownItem

unresolved_query : String → String → String → Resolving → Outcome Resolving
unresolved_query code message query r = unknown_item code message (some query) none >>= λ unknown.
    ok (record r { unresolved = r.unresolved ++ query ∷ []; unknowns = r.unknowns ++ unknown ∷ [] })

resolve_matches : Runtime → String → List ResolvedHost → Resolving → Outcome Resolving
unfolding unresolved_query join sort
resolve_matches rt query [] r =
    unresolved_query "host_not_found"
      ("No host matched " <> (rt.repr query <> " in any source searched.")) query r
resolve_matches rt query (host ∷ []) r =
    ok (record r { resolved = set_default host.host host r.resolved })
resolve_matches rt query (a ∷ b ∷ rest) r =
    unresolved_query "host_ambiguous"
      ("Several hosts matched "
        <> (rt.repr query
            <> (": "
                <> (join ", " (sort (map (λ h. h.host) (a ∷ b ∷ rest)))
                    <> ". None was selected automatically."))))
      query r

-- The loop over the queries.
unfoldable pub resolve_queries :
    Runtime → List ResolvedHost → List String → Resolving → Outcome Resolving
unfolding resolve_matches
resolve_queries rt found [] r = ok r
resolve_queries rt found (query ∷ queries) r =
    resolve_matches rt query (keep (λ h. optional_eq h.query (some query)) found) r >>= λ next.
    resolve_queries rt found queries next

-- The hosts of a selector that names them itself.
unfoldable pub add_unasked : Dict ResolvedHost → List ResolvedHost → Dict ResolvedHost
add_unasked resolved [] = resolved
add_unasked resolved (host ∷ hosts) =
    add_unasked
      (if optional_eq host.query none then set_default host.host host resolved else resolved) hosts

abbrev purposes_of : Dict String → List ToolExecutionResult → Dict String
purposes_of purposes [] = purposes
purposes_of purposes (result ∷ results) =
    purposes_of (insert result.tool_call_id purpose purposes) results

resolved_state : InvestigationState → Search → Resolving → InvestigationState
unfolding add_unasked
resolved_state state s r =
    let resolved = add_unasked r.resolved s.found in
    record state {
      hosts = values resolved;
      unresolved_hosts = dedupe_from [] r.unresolved;
      unknowns = r.unknowns;
      tool_results = state.tool_results ++ s.produced;
      tool_errors = state.tool_errors ++ keep (λ result. is_error result.status) s.produced;
      tool_call_count = length (state.tool_results ++ s.produced);
      tool_call_purposes = purposes_of state.tool_call_purposes s.produced;
      last_observations = s.produced;
      stop_reason =
          if is_empty resolved
          then some "no host could be resolved for investigation"
          else state.stop_reason;
    }

-- `ResolveHostsNode.__call__`
unfoldable pub resolve_hosts :
    World → (ℕ → Search → HostSearchDecision) → InvestigationState → Outcome InvestigationState
unfolding search resolve_queries resolved_state
resolve_hosts w ask state = search w state state.parsed_request.host_queries ask >>= λ s.
    resolve_queries w.rt s.found state.parsed_request.host_queries
      (record { resolved = []; unresolved = []; unknowns = state.unknowns ++ s.unknowns })
    >>= λ r. ok (visit "resolve_hosts" (resolved_state state s r))
