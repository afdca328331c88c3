-- ===== src/State/Defs.antt =====
-- `InvestigationState` of graph/state.py and its properties.
use aiops_rca_orchestrator.Common.{ℕ, ◌-◌, Bool, false, not, Option, none, some, String, List, ◌=ₜ◌}
use aiops_rca_orchestrator.Common.Dict.{Dict}
use aiops_rca_orchestrator.Common.Value.{Value, str, dict, entries, get}
use aiops_rca_orchestrator.Schema.Investigation.{
  Moment, RequestEnvelope, ParsedRequest, ResolvedHost, UnknownItem, KnownFact, Hypothesis,
  ObservationQuestion, PlannedToolCall, InvestigationLimits, ToolExecutionResult,
}
use aiops_rca_orchestrator.Schema.Evidence.{Evidence, EvidencePackage}
use aiops_rca_orchestrator.Schema.Report.{Report}

pub record InvestigationState : Type 0 where
  pub investigation_id : String
  pub request : RequestEnvelope
  pub parsed_request : ParsedRequest
  pub collection : Dict Value
  pub hosts : List ResolvedHost
  pub unresolved_hosts : List String
  pub phenomenon : Option String
  pub hypotheses : List Hypothesis
  pub known_facts : List KnownFact
  pub unknowns : List UnknownItem
  pub next_questions : List ObservationQuestion
  pub planned_tool_calls : List PlannedToolCall
  pub tool_catalog : List (Dict Value)
  pub evidence : List Evidence
  pub last_observations : List ToolExecutionResult
  pub tool_results : List ToolExecutionResult
  pub tool_errors : List ToolExecutionResult
  pub tool_call_purposes : Dict String
  pub iteration_count : ℕ
  pub tool_call_count : ℕ
  pub limits : InvestigationLimits
  pub started_at : Moment
  pub stop_reason : Option String
  pub limit_reached : Bool
  pub fatal_error : Option String
  pub evidence_package : Option EvidencePackage
  pub template_output : Option (Dict Value)
  pub report : Option Report
  pub report_findings : List String
  pub report_rejections : List String
  pub report_attempts : ℕ
  pub routing_rejections : List String
  pub routing_attempts : ℕ
  pub report_duration_ms : ℕ
  pub visited_nodes : List String

-- Truth of a field that is a text or `None`.
unfoldable pub is_set : Option String → Bool
is_set none = false
is_set (some s) = not (s =ₜ "")

policy_text : Value → Option String
policy_text (str s) = some s
policy_text _ = none

policy_of : Value → Option String
unfolding policy_text
policy_of (dict window) = policy_text (get "policy" (entries window))
policy_of _ = none

-- `state.declared_window_policy`
unfoldable pub declared_window_policy : InvestigationState → Option String
unfolding policy_of
declared_window_policy state = policy_of (get "window" state.collection)

-- `state.elapsed_seconds(now)`, in microseconds: `max(0, now - started_at)`.
unfoldable pub elapsed : InvestigationState → Moment → ℕ
elapsed state now = now - state.started_at
