-- ===== src/Service/Run/Response.antt =====
-- `AgentRun`, `InvestigationTrace` and `InvestigationApiResponse` of api/models.py. What a run's
-- `output` dumps stands here undumped.
use aiops_rca_orchestrator.Common.{ℕ, Option, String, List}
use aiops_rca_orchestrator.Common.Text.{within}
use aiops_rca_orchestrator.Common.Outcome.{Outcome, ok, require, validation_error, ◌>>◌}
use aiops_rca_orchestrator.Schema.Investigation.{ParsedRequest, ToolExecutionResult}
use aiops_rca_orchestrator.Schema.Evidence.{EvidencePackage}
use aiops_rca_orchestrator.Schema.Report.{Report}
use aiops_rca_orchestrator.Templates.Select.{ReportTemplate}

pub data Stage : Type 0 where
  question_analyzer evidence_collector rca_writer : Stage

pub data RunOutput : Type 0 where
  analyzed : ParsedRequest → RunOutput
  collected : EvidencePackage → RunOutput
  stopped : (stop_reason : Option String) → RunOutput
  written : (drafts : ℕ) (rejected : List String) → Report → RunOutput

pub record AgentRun : Type 0 where
  pub stage : Stage
  pub model : String
  pub duration_ms : ℕ
  pub output : RunOutput

-- `AgentRun(...)`
unfoldable pub agent_run : Stage → String → ℕ → RunOutput → Outcome AgentRun
agent_run stage model duration_ms output = do
  require (within 1 200 model) (validation_error "AgentRun")
  ok (record { stage = stage; model = model; duration_ms = duration_ms; output = output })

pub record InvestigationTrace : Type 0 where
  pub visited_nodes : List String
  pub tool_calls : List ToolExecutionResult
  pub stop_reason : Option String

pub data Status : Type 0 where
  completed needs_clarification unsupported : Status

pub record InvestigationApiResponse : Type 0 where
  pub status : Status
  pub investigation_id : String
  pub parsed_request : ParsedRequest
  pub template : ReportTemplate
  pub evidence_package : Option EvidencePackage
  pub report : Option Report
  pub agent_runs : List AgentRun
  pub trace : Option InvestigationTrace
