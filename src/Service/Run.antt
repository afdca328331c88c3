-- ===== src/Service/Run.antt =====
-- `investigate` of services/investigation.py: from a request to the response.
pub mod Response
pub mod Start
pub mod Finish
pub mod Laws
pub mod Begin
pub mod Reports
pub mod Delivered
use aiops_rca_orchestrator.Common.{none, [], ◌∷◌}
use aiops_rca_orchestrator.Common.Outcome.{Outcome, ok, ◌>>=◌}
use aiops_rca_orchestrator.Schema.Investigation.{
  ParseStatus, ready, needs_clarification, unsupported, ParsedRequest,
}
use aiops_rca_orchestrator.Templates.Select.{ReportTemplate, Selected, select_template}
use aiops_rca_orchestrator.Service.Models.{model_for}
use aiops_rca_orchestrator.Service.Analyze.{InvestigationApiRequest, analyze}
use aiops_rca_orchestrator.Service.Run.Response.{
  Status, AgentRun, agent_run, question_analyzer, analyzed, InvestigationApiResponse,
}
use aiops_rca_orchestrator.Service.Run.Start.{Service, start}
use aiops_rca_orchestrator.Service.Run.Finish.{collect, conclude}

-- The response to a question that is not ready.
abbrev unready :
    Service → Status → ParsedRequest → ReportTemplate → AgentRun → InvestigationApiResponse
unready svc status parsed template run = record {
  status = status;
  investigation_id = svc.investigation_id;
  parsed_request = parsed;
  template = template;
  evidence_package = none;
  report = none;
  agent_runs = run ∷ [];
  trace = none;
}

unfoldable pub by_status :
    Service
    → InvestigationApiRequest
    → ParsedRequest
    → Selected
    → AgentRun
    → ParseStatus
    → Outcome InvestigationApiResponse
unfolding start collect conclude
by_status svc api parsed selected run ready = do
  state ← start svc api parsed selected
  finished ← collect svc state
  conclude svc parsed selected.0 run finished
by_status svc api parsed selected run needs_clarification =
    ok (unready svc Status.needs_clarification parsed selected.0 run)
by_status svc api parsed selected run unsupported =
    ok (unready svc Status.unsupported parsed selected.0 run)

-- `investigate(api_request)`
unfoldable pub investigate : Service → InvestigationApiRequest → Outcome InvestigationApiResponse
unfolding model_for analyze agent_run select_template by_status
investigate svc api = do
  model ← model_for svc.settings "question_analyzer"
  parsed ← analyze svc.analyzer api
  run ← agent_run question_analyzer model svc.analyzer_ms (analyzed parsed)
  selected ← select_template parsed.request_type api.templates
  by_status svc api parsed selected run parsed.parse_status
