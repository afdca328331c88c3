-- ===== src/Nodes/World.antt =====
-- What a node calls besides its own code: the interpreter, the evidence models, the registry, and
-- the tool executor. A node's calls of the executor are numbered, since two calls with equal
-- arguments may answer differently.
use aiops_rca_orchestrator.Common.{
  ℕ, ◌&&◌, ◌⊎◌, inl, inr, Option, none, some, String, map, List, [], ◌∷◌, ◌++◌, ◌=ₜ◌, if◌then◌else◌,
}
use aiops_rca_orchestrator.Common.Dict.{Dict, lookup, index_from}
use aiops_rca_orchestrator.Common.Text.{◌<>◌, join}
use aiops_rca_orchestrator.Common.Value.{Value, dict, entries, get, truthy, Runtime}
use aiops_rca_orchestrator.Common.Outcome.{
  Outcome, ok, raised, require, plain, group, Exception, value_error, runtime_error, type_error,
  validation_error, failure, tool_policy_error, ◌>>=◌, ◌>>◌,
}
use aiops_rca_orchestrator.Schema.Investigation.{
  ResolvedHost, UnknownItem, unknown_item, PlannedToolCall, ToolExecutionResult,
}
use aiops_rca_orchestrator.Registry.{ToolRegistry, RoutingContext}
use aiops_rca_orchestrator.Normalizer.Merge.{EvidenceModel}
use aiops_rca_orchestrator.Normalizer.Fields.{mapping}
use aiops_rca_orchestrator.State.{InvestigationState}

abbrev pub Execute : Type 0
Execute = PlannedToolCall → RoutingContext → Outcome ToolExecutionResult

pub record World : Type 0 where
  pub rt : Runtime
  pub model : EvidenceModel
  pub registry : ToolRegistry
  pub execute : ℕ → Execute

-- `state.visited_nodes` with this node behind it.
abbrev pub visit : String → InvestigationState → InvestigationState
visit node state = record state { visited_nodes = state.visited_nodes ++ node ∷ [] }

-- `unknowns.append(UnknownItem(code=..., message=..., tool_call_id=...))`
abbrev pub note : String → String → Option String → List UnknownItem → Outcome (List UnknownItem)
note code message tool_call_id unknowns =
    unknown_item code message none tool_call_id >>= λ unknown. ok (unknowns ++ unknown ∷ [])

-- `text or default`: an empty text is false too.
abbrev pub text_or : Option String → String → String
text_or none default = default
text_or (some text) default = if text =ₜ "" then default else text

-- The last host of this name: a dict keyed by name holds that one.
abbrev pub last_host : List ResolvedHost → String → Option ResolvedHost
last_host hosts name = lookup name (index_from (λ h. h.host) [] hosts)

-- `{host.host: host.host_id for host in hosts}.get(name or "")`
abbrev pub host_id_of : List ResolvedHost → Option String → Option String
host_id_of hosts name = elim (last_host hosts (text_or name "")) [
  | none ↦ none
  | some host ↦ host.host_id
]

-- `str(error)` of an exception.
abbrev pub exception_text : Exception → String
exception_text (value_error text) = text
exception_text (runtime_error text) = text
exception_text (type_error text) = text
exception_text (validation_error text) = text
exception_text (failure (plain class_name text)) = text
exception_text (failure (group members)) = "unhandled errors in a TaskGroup"
exception_text (tool_policy_error text retryable) = text

-- `json.loads(arguments_json)`, and the test that it is an object; otherwise the reason.
abbrev pub decoded_object : Outcome Value → Dict Value ⊎ String
decoded_object (ok (dict arguments)) = inl (entries arguments)
decoded_object (ok _) = inr "arguments_json must decode to an object"
decoded_object (raised e) = inr (exception_text e)

-- `f"{names}"` of a list of texts.
unfoldable pub list_text : Runtime → List String → String
unfolding join
list_text rt names = "[" <> (join ", " (map rt.repr names) <> "]")

-- `_resolved_window` of graph/live_nodes.py.
unfoldable pub resolved_window : InvestigationState → Outcome (Value × Value)
unfolding truthy
resolved_window state = do
  let window = mapping (get "resolved_window" state.collection)
  require (truthy (get "from" window) && truthy (get "to" window))
      (value_error "collection.resolved_window is required")
  ok (get "from" window, get "to" window)
