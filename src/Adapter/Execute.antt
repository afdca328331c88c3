-- ===== src/Adapter/Execute.antt =====
-- `McpAdapter.execute` of tools/adapters/base.py, reached through `ToolExecutor.execute` of
-- tools/executor.py. The transport, the clock and the fresh call id are arguments.
use aiops_rca_orchestrator.Common.{
  Bool, false, not, Option, none, some, String, leb, ◌=ₜ◌, ◌&&◌, ◌||◌,
}
use aiops_rca_orchestrator.Common.Text.{◌<>◌, within_optional}
use aiops_rca_orchestrator.Common.Dict.{Dict}
use aiops_rca_orchestrator.Common.Value.{Value, null, Runtime}
use aiops_rca_orchestrator.Common.Outcome.{
  Outcome, Exception, ok, require, value_error, validation_error, ◌>>=◌, ◌>>◌,
}
use aiops_rca_orchestrator.Sources.{ToolSource, source_eq, source_text}
use aiops_rca_orchestrator.Schema.Investigation.{
  Moment, PlannedToolCall, error, is_error, ToolExecutionResult,
}
use aiops_rca_orchestrator.Registry.{
  any_time, RoutingContext, ToolPolicy, ToolRegistry, get_policy, validate_call,
  apply_window_policy,
}
use aiops_rca_orchestrator.Adapter.Failures.{describe_failure}
use aiops_rca_orchestrator.Adapter.Classify.{Classified, classify_result}

-- What `asyncio.wait_for(transport.call_tool(...))` comes to.
pub data Reply : Type 0 where
  response : Value → Reply
  timeout : Reply
  failed : Exception → Reply

-- One call's surroundings.
pub record Call : Type 0 where
  pub call_tool : String → Dict Value → Reply
  pub says_no : String → Bool
  pub timeout_text : String
  pub call_id : String
  pub started_at : Moment
  pub finished_at : Moment

-- The status and error of a reply.
unfoldable pub settle : Runtime → ToolPolicy → Call → Reply → Classified
unfolding classify_result describe_failure
settle rt policy call (response value) = classify_result rt call.says_no policy value
settle rt policy call timeout =
    (error, some ("tool call timed out after " <> (call.timeout_text <> " seconds")))
settle rt policy call (failed exception) = (error, some (describe_failure rt exception))

abbrev pub response_of : Reply → Value
response_of (response value) = value
response_of _ = null

abbrev pub has_text : Option String → Bool
has_text none = false
has_text (some s) = not (s =ₜ "")

-- The bounds and the validator of `ToolExecutionResult`.
unfoldable pub result_fits : ToolExecutionResult → Bool
result_fits result =
    within_optional 1 200 (some result.tool_call_id)
    && (within_optional 1 100 (some result.tool_name)
        && (within_optional 0 10000 result.error
            && (leb result.started_at result.finished_at
                && ((not (is_error result.status) || has_text result.error)
                    && (is_error result.status || not (has_text result.error))))))

unfoldable pub finish :
    ToolSource → String → Dict Value → Call → Reply → Classified → Outcome ToolExecutionResult
unfolding result_fits
finish source tool_name arguments call reply verdict = do
  let result : ToolExecutionResult = record {
    tool_call_id = call.call_id;
    tool_name = tool_name;
    source = source;
    status = verdict.0;
    request = arguments;
    response = response_of reply;
    error = verdict.1;
    started_at = call.started_at;
    finished_at = call.finished_at;
  }
  require (result_fits result) (validation_error "ToolExecutionResult")
  ok result

-- `McpAdapter.execute(tool_name, arguments, context)`
unfoldable pub adapter_execute :
    Runtime
    → ToolRegistry
    → ToolSource
    → Call
    → String
    → Dict Value
    → RoutingContext
    → Outcome ToolExecutionResult
unfolding settle finish validate_call apply_window_policy
adapter_execute rt registry source call tool_name arguments context = do
  policy ← validate_call rt registry tool_name arguments context any_time
  require (source_eq policy.source source) (
      value_error (
        tool_name
        <> (" belongs to "
            <> (source_text policy.source <> (", not adapter " <> source_text source)))))
  widened ← apply_window_policy rt policy arguments context.declared_window_policy
  let reply = call.call_tool tool_name widened
  finish source tool_name widened call reply (settle rt policy call reply)

-- `ToolExecutor.execute(planned, context)`: the adapter is that of the policy's source.
unfoldable pub execute :
    Runtime → ToolRegistry → Call → PlannedToolCall → RoutingContext → Outcome ToolExecutionResult
unfolding get_policy adapter_execute
execute rt registry call planned context = do
  policy ← get_policy registry planned.tool_name
  adapter_execute rt registry policy.source call planned.tool_name planned.arguments context
