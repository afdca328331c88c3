-- ===== src/Schema/Evidence.antt =====
-- schemas/evidence_package.py.
use aiops_rca_orchestrator.Common.{ℕ, Bool, Option, String, List}
use aiops_rca_orchestrator.Common.Dict.{Dict}
use aiops_rca_orchestrator.Common.Value.{Value}
use aiops_rca_orchestrator.Sources.{ToolSource}
use aiops_rca_orchestrator.Schema.Investigation.{Moment}

-- The values of a window as a tool or a template wrote them.
pub record EvidenceWindow : Type 0 where
  pub from : Value
  pub to : Value
  pub aggregation : Value

pub record EvidenceRequest : Type 0 where
  pub request_id : String
  pub original_question : String
  pub requested_by : String

pub record QueryHost : Type 0 where
  pub host : String
  pub host_id : Option String

pub record QueryContext : Type 0 where
  pub hosts : List QueryHost
  pub timezone : String
  pub anchor_time : Moment

pub data CallRecordStatus : Type 0 where
  success partial failed : CallRecordStatus

pub record ToolCallRecord : Type 0 where
  pub tool_call_id : String
  pub tool_name : String
  pub purpose : String
  pub status : CallRecordStatus

pub record InvestigationRecord : Type 0 where
  pub initial_window : EvidenceWindow
  pub final_window : EvidenceWindow
  pub iterations : ℕ
  pub tool_calls : List ToolCallRecord
  pub expansion_reasons : List String
  pub stop_reason : String
  pub limit_reached : Bool

pub record ResourceIds : Type 0 where
  pub host_id : Option String
  pub event_id : Option String
  pub trigger_id : Option String
  pub item_id : Option String

pub record MetricSummary : Type 0 where
  pub name : String
  pub unit : Value
  pub least : Value
  pub most : Value
  pub avg : Value
  pub first : Value
  pub last : Value
  pub change_percent : Value
  pub trend : Value
  pub key : Value

pub record ObservedList : Type 0 where
  pub kind : String
  pub items : List (Dict Value)
  pub omitted : ℕ

pub record Evidence : Type 0 where
  pub evidence_id : String
  pub evidence_type : String
  pub source : ToolSource
  pub summary : String
  pub observed_at : Value
  pub window : Option EvidenceWindow
  pub resource_ids : ResourceIds
  pub metric : Option MetricSummary
  pub observed : Option ObservedList
  pub data_quality : Value
  pub tool_call_id : String
  pub search_query : Option String

pub record ConfirmedFact : Type 0 where
  pub fact : String
  pub evidence_refs : List String

pub data Confidence : Type 0 where
  high medium low : Confidence

pub record PackageHypothesis : Type 0 where
  pub description : String
  pub supporting_evidence_refs : List String
  pub contradicting_evidence_refs : List String
  pub confidence : Confidence

pub record EvidencePackage : Type 0 where
  pub request : EvidenceRequest
  pub query_context : QueryContext
  pub investigation : InvestigationRecord
  pub observed_failure_mode : String
  pub evidence : List Evidence
  pub confirmed_facts : List ConfirmedFact
  pub hypotheses : List PackageHypothesis
  pub unknowns : List String
