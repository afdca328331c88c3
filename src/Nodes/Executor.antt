-- ===== src/Nodes/Executor.antt =====
-- `ToolExecutorNode` of graph/deterministic_nodes.py.
use aiops_rca_orchestrator.Common.{
  ℕ, suc, ◌+◌, Bool, false, ◌&&◌, Option, none, some, String, List, [], ◌∷◌, ◌++◌, ltb, ◌=ₜ◌,
  if◌then◌else◌, length, is_empty,
}
use aiops_rca_orchestrator.Common.Text.{◌<>◌, text_length, grouped}
use aiops_rca_orchestrator.Common.Dict.{Dict, insert}
use aiops_rca_orchestrator.Common.Value.{Value, null, Runtime}
use aiops_rca_orchestrator.Common.Outcome.{Outcome, ok, raised, ◌>>=◌}
use aiops_rca_orchestrator.Schema.Investigation.{
  timeless, ObservationQuestion, PlannedToolCall, ToolExecutionResult, is_error, is_partial,
  UnknownItem,
}
use aiops_rca_orchestrator.Registry.{RoutingContext}
use aiops_rca_orchestrator.State.{InvestigationState, declared_window_policy}
use aiops_rca_orchestrator.Adapter.Failures.{describe_failure}
use aiops_rca_orchestrator.Nodes.World.{World, visit, note, text_or}

abbrev pub max_reasonable_response_chars : ℕ
max_reasonable_response_chars = 40000

asks : PlannedToolCall → ObservationQuestion → Bool
asks call question = elim question.required_tool [
  | none ↦ false
  | some tool ↦ tool =ₜ call.tool_name && question.question =ₜ call.purpose
]

-- `asked.get((call.tool_name, call.purpose))`: of two questions with one key the later one stays.
unfoldable pub asked_by :
    PlannedToolCall
    → Option ObservationQuestion
    → List ObservationQuestion
    → Option ObservationQuestion
unfolding asks
asked_by call found [] = found
asked_by call found (question ∷ questions) =
    asked_by call (if asks call question then some question else found) questions

context_for : InvestigationState → ℕ → Option ObservationQuestion → RoutingContext
unfolding declared_window_policy
context_for state offset none = record {
  temporal_scope = timeless;
  generic_fallback_allowed = false;
  tool_call_count = state.tool_call_count + offset;
  max_tool_calls = state.limits.max_tool_calls;
  declared_window_policy = declared_window_policy state;
}
context_for state offset (some question) = record {
  temporal_scope = question.temporal_scope;
  generic_fallback_allowed = question.generic_fallback_allowed;
  tool_call_count = state.tool_call_count + offset;
  max_tool_calls = state.limits.max_tool_calls;
  declared_window_policy = declared_window_policy state;
}

-- `run(call, offset)`
unfoldable pub run : World → InvestigationState → PlannedToolCall → ℕ → Outcome ToolExecutionResult
unfolding asked_by context_for
run w state call offset =
    w.execute offset call (context_for state offset (asked_by call none state.next_questions))

-- `asyncio.gather(..., return_exceptions=True)`, each call with what came of it.
unfoldable pub gather :
    World
    → InvestigationState
    → ℕ
    → List PlannedToolCall
    → List (PlannedToolCall × Outcome ToolExecutionResult)
unfolding run
gather w state offset [] = []
gather w state offset (call ∷ calls) =
    (call, run w state call offset) ∷ gather w state (suc offset) calls

-- `_response_chars`
unfoldable pub response_chars : Runtime → Value → ℕ
unfolding text_length
response_chars rt null = 0
response_chars rt value = text_length (rt.dumps value)

-- The variables of the loop.
pub record Collected : Type 0 where
  pub results : List ToolExecutionResult
  pub errors : List ToolExecutionResult
  pub unknowns : List UnknownItem
  pub purposes : Dict String
  pub observations : List ToolExecutionResult

error_notes : ToolExecutionResult → List UnknownItem → Outcome (List UnknownItem)
error_notes result unknowns =
    if is_error result.status
    then note "tool_error" (text_or result.error (result.tool_name <> " failed"))
        (some result.tool_call_id) unknowns
    else ok unknowns

partial_notes : ToolExecutionResult → List UnknownItem → Outcome (List UnknownItem)
partial_notes result unknowns =
    if is_partial result.status
    then note "result_truncated"
        (result.tool_name
          <> " reached its result limit, so the returned count is a lower bound and the window is only partly covered")
        (some result.tool_call_id) unknowns
    else ok unknowns

size_notes : Runtime → ToolExecutionResult → List UnknownItem → Outcome (List UnknownItem)
unfolding response_chars
size_notes rt result unknowns =
    if ltb max_reasonable_response_chars (response_chars rt result.response)
    then note "response_too_large_to_reason_over"
        (result.tool_name
          <> (" returned "
              <> (grouped (response_chars rt result.response)
                  <> " characters. A question about counts or timing is answered by an aggregate in a few rows; fetch documents only once an aggregate says which ones to read.")))
        (some result.tool_call_id) unknowns
    else ok unknowns

-- The notes on one result, in the order of the source.
unfoldable pub result_notes :
    Runtime → ToolExecutionResult → List UnknownItem → Outcome (List UnknownItem)
unfolding error_notes partial_notes size_notes
result_notes rt result unknowns =
    error_notes result unknowns >>= λ u. partial_notes result u >>= λ v. size_notes rt result v

-- One round of the loop: what came of one call.
unfoldable pub collect :
    Runtime → Collected → PlannedToolCall → Outcome ToolExecutionResult → Outcome Collected
unfolding result_notes
collect rt c call (raised exception) =
    note "tool_call_failed" (call.tool_name <> (": " <> describe_failure rt exception)) none
      c.unknowns
    >>= λ unknowns. ok (record c { unknowns = unknowns })
collect rt c call (ok result) = result_notes rt result c.unknowns >>= λ unknowns. ok (record {
  results = c.results ++ result ∷ [];
  errors = if is_error result.status then c.errors ++ result ∷ [] else c.errors;
  unknowns = unknowns;
  purposes = insert result.tool_call_id call.purpose c.purposes;
  observations = c.observations ++ result ∷ [];
})

unfoldable pub collect_all :
    Runtime → Collected → List (PlannedToolCall × Outcome ToolExecutionResult) → Outcome Collected
unfolding collect
collect_all rt c [] = ok c
collect_all rt c ((call, outcome) ∷ rest) =
    collect rt c call outcome >>= λ next. collect_all rt next rest

abbrev pub collected_state : InvestigationState → Collected → InvestigationState
collected_state state c = record state {
  tool_results = c.results;
  tool_errors = c.errors;
  unknowns = c.unknowns;
  tool_call_purposes = c.purposes;
  tool_call_count = length c.results;
  last_observations = c.observations;
}

abbrev pub collected_from : InvestigationState → Collected
collected_from state = record {
  results = state.tool_results;
  errors = state.tool_errors;
  unknowns = state.unknowns;
  purposes = state.tool_call_purposes;
  observations = [];
}

-- `ToolExecutorNode.__call__`
unfoldable pub tool_executor : World → InvestigationState → Outcome InvestigationState
unfolding gather collect_all
tool_executor w state =
    if is_empty state.planned_tool_calls
    then ok (
        visit "tool_executor"
          (record state { fatal_error = some "tool_executor entered without a planned tool call" }))
    else (collect_all w.rt (collected_from state) (gather w state 0 state.planned_tool_calls)
        >>= λ c. ok (visit "tool_executor" (collected_state state c)))
