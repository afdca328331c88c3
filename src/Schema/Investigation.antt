-- ===== src/Schema/Investigation.antt =====
-- schemas/investigation.py, schemas/parsed_request.py and tools/result.py.
use aiops_rca_orchestrator.Common.{ℕ, Bool, true, false, ◌&&◌, Option, String, List, leb, length}
use aiops_rca_orchestrator.Common.Text.{within, within_optional}
use aiops_rca_orchestrator.Common.Dict.{Dict}
use aiops_rca_orchestrator.Common.Value.{Value}
use aiops_rca_orchestrator.Common.Outcome.{Outcome, require, validation_error, ◌>>◌}
use aiops_rca_orchestrator.Sources.{ToolSource}

-- A moment is a number of microseconds since the first one a `datetime` holds, in UTC.
abbrev pub Moment : Type 0
Moment = ℕ

pub record RequestEnvelope : Type 0 where
  pub request_id : String
  pub source : String
  pub received_at : Moment
  pub timezone : String
  pub question : String
  pub metadata : Dict Value

pub record ResolvedHost : Type 0 where
  pub host : String
  pub host_id : Option String
  pub query : Option String
  pub found_by : Option String

pub record UnknownItem : Type 0 where
  pub code : String
  pub message : String
  pub host_query : Option String
  pub tool_call_id : Option String

-- `UnknownItem(code=..., message=..., host_query=..., tool_call_id=...)`
unfoldable pub unknown_item : String → String → Option String → Option String → Outcome UnknownItem
unknown_item code message host_query tool_call_id = do
  require
      (within 1 100 code
        && (within 1 2000 message
            && (within_optional 1 255 host_query && within_optional 1 200 tool_call_id)))
      (validation_error "UnknownItem")
  Outcome.ok (record {
    code = code;
    message = message;
    host_query = host_query;
    tool_call_id = tool_call_id;
  })

pub record KnownFact : Type 0 where
  pub fact : String
  pub evidence_ids : List String

pub data HypothesisStatus : Type 0 where
  active supported rejected unresolved : HypothesisStatus

pub record Hypothesis : Type 0 where
  pub id : String
  pub statement : String
  pub status : HypothesisStatus
  pub supporting_evidence_ids : List String
  pub counter_evidence_ids : List String
  pub rationale : Option String

pub data QuestionScope : Type 0 where
  historical current timeless : QuestionScope

pub record ObservationQuestion : Type 0 where
  pub question : String
  pub discriminates_hypothesis_ids : List String
  pub expected_if_true : Dict String
  pub expected_if_false : Dict String
  pub temporal_scope : QuestionScope
  pub required_tool : Option String
  pub arguments : Dict Value
  pub host : Option String
  pub generic_fallback_allowed : Bool

pub record PlannedToolCall : Type 0 where
  pub tool_name : String
  pub arguments : Dict Value
  pub purpose : String
  pub target_hypothesis_ids : List String
  pub host : Option String
  pub host_id : Option String

-- `PlannedToolCall(...)`
unfoldable pub planned_tool_call :
    String
    → Dict Value
    → String
    → List String
    → Option String
    → Option String
    → Outcome PlannedToolCall
planned_tool_call tool_name arguments purpose target_hypothesis_ids host host_id = do
  require
      (within 1 100 tool_name
        && (within 1 1000 purpose
            && (leb (length target_hypothesis_ids) 20 && within_optional 1 255 host)))
      (validation_error "PlannedToolCall")
  Outcome.ok (record {
    tool_name = tool_name;
    arguments = arguments;
    purpose = purpose;
    target_hypothesis_ids = target_hypothesis_ids;
    host = host;
    host_id = host_id;
  })

pub record InvestigationLimits : Type 0 where
  pub max_tool_calls : ℕ
  pub max_iterations : ℕ
  pub max_duration_seconds : ℕ

pub data ToolExecutionStatus : Type 0 where
  ok empty filtered_empty partial error : ToolExecutionStatus

abbrev pub is_error : ToolExecutionStatus → Bool
is_error ToolExecutionStatus.error = true
is_error _ = false

abbrev pub is_partial : ToolExecutionStatus → Bool
is_partial ToolExecutionStatus.partial = true
is_partial _ = false

pub record ToolExecutionResult : Type 0 where
  pub tool_call_id : String
  pub tool_name : String
  pub source : ToolSource
  pub status : ToolExecutionStatus
  pub request : Dict Value
  pub response : Value
  pub error : Option String
  pub started_at : Moment
  pub finished_at : Moment

pub data ParseStatus : Type 0 where
  ready needs_clarification unsupported : ParseStatus

pub data InitialWindowHint : Type 0 where
  relative : (before_minutes after_minutes : ℕ) → InitialWindowHint
  absolute : (start stop : Moment) → InitialWindowHint

pub record ParsedRequest : Type 0 where
  pub request_id : String
  pub parse_status : ParseStatus
  pub request_type : String
  pub host_queries : List String
  pub anchor_time : Option Moment
  pub timezone : String
  pub incident_description : String
  pub incident_type_hint : Option String
  pub user_intent : String
  pub initial_window_hint : Option InitialWindowHint
  pub allow_dynamic_expansion : Bool
  pub ambiguities : List String
  pub original_question : String
