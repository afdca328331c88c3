-- ===== src/Service/Run/Finish.antt =====
-- The graph's turn in `investigate` of services/investigation.py, and the response behind it.
use aiops_rca_orchestrator.Common.{ℕ, ◌+◌, ◌*◌, Option, none, some, List, [], ◌∷◌}
use aiops_rca_orchestrator.Common.Outcome.{
  Outcome, ok, raised, failure, plain, runtime_error, ◌>>=◌,
}
use aiops_rca_orchestrator.Schema.Investigation.{ParsedRequest, ParseStatus}
use aiops_rca_orchestrator.Schema.Evidence.{EvidencePackage}
use aiops_rca_orchestrator.Schema.Report.{Report}
use aiops_rca_orchestrator.State.{InvestigationState, rebuild}
use aiops_rca_orchestrator.Graph.{resolve_hosts, drive}
use aiops_rca_orchestrator.Templates.Select.{ReportTemplate}
use aiops_rca_orchestrator.Service.Clarify.{clarification_lines}
use aiops_rca_orchestrator.Service.Models.{model_for, collector_models}
use aiops_rca_orchestrator.Service.Run.Response.{
  evidence_collector, rca_writer, RunOutput, collected, stopped, written, AgentRun, agent_run,
  InvestigationTrace, completed, needs_clarification, InvestigationApiResponse,
}
use aiops_rca_orchestrator.Service.Run.Start.{Service}

-- `config["recursion_limit"]`
abbrev pub recursion_limit : InvestigationState → ℕ
recursion_limit state = 8 + state.limits.max_iterations * 6

unfoldable pub ended : Option InvestigationState → Outcome InvestigationState
ended none = raised (failure (plain "GraphRecursionError" "recursion limit reached"))
ended (some last) = ok last

-- `await self.graph.ainvoke(state, ...)`, and `InvestigationState.model_validate(output)`.
unfoldable pub collect : Service → InvestigationState → Outcome InvestigationState
unfolding drive ended rebuild
collect svc state = do
  output ← drive (recursion_limit state) svc.answers resolve_hosts state
  last ← ended output
  rebuild last

abbrev pub trace_of : InvestigationState → InvestigationTrace
trace_of finished = record {
  visited_nodes = finished.visited_nodes;
  tool_calls = finished.tool_results;
  stop_reason = finished.stop_reason;
}

abbrev pub run_output : InvestigationState → Option EvidencePackage → RunOutput
run_output finished none = stopped finished.stop_reason
run_output finished (some pack) = collected pack

-- The question as it goes back with what the run could not settle.
abbrev pub unsettled : ParsedRequest → InvestigationState → ParsedRequest
unsettled parsed finished = record parsed {
  parse_status = ParseStatus.needs_clarification;
  ambiguities = clarification_lines finished.unknowns;
}

abbrev asked_back :
    Service
    → ParsedRequest
    → ReportTemplate
    → List AgentRun
    → InvestigationState
    → InvestigationApiResponse
asked_back svc parsed template runs finished = record {
  status = needs_clarification;
  investigation_id = svc.investigation_id;
  parsed_request = unsettled parsed finished;
  template = template;
  evidence_package = none;
  report = none;
  agent_runs = runs;
  trace = some (trace_of finished);
}

unfoldable pub answered :
    Service
    → ParsedRequest
    → ReportTemplate
    → AgentRun
    → AgentRun
    → InvestigationState
    → EvidencePackage
    → Option Report
    → Outcome InvestigationApiResponse
unfolding model_for agent_run
answered svc parsed template first second finished pack none =
    raised (runtime_error "the graph produced an evidence package but no report")
answered svc parsed template first second finished pack (some report) = do
  model ← model_for svc.settings "report_writer"
  third ←
      agent_run rca_writer model finished.report_duration_ms
        (written finished.report_attempts finished.report_rejections report)
  ok (record {
    status = completed;
    investigation_id = svc.investigation_id;
    parsed_request = parsed;
    template = template;
    evidence_package = some pack;
    report = some report;
    agent_runs = first ∷ second ∷ third ∷ [];
    trace = some (trace_of finished);
  })

unfoldable pub respond :
    Service
    → ParsedRequest
    → ReportTemplate
    → AgentRun
    → AgentRun
    → InvestigationState
    → Option EvidencePackage
    → Outcome InvestigationApiResponse
unfolding answered clarification_lines
respond svc parsed template first second finished none =
    ok (asked_back svc parsed template (first ∷ second ∷ []) finished)
respond svc parsed template first second finished (some pack) =
    answered svc parsed template first second finished pack finished.report

-- From the graph's last state to the response; `first` is the analyzer's run.
unfoldable pub conclude :
    Service
    → ParsedRequest
    → ReportTemplate
    → AgentRun
    → InvestigationState
    → Outcome InvestigationApiResponse
unfolding collector_models agent_run respond
conclude svc parsed template first finished = do
  models ← collector_models svc.settings
  second ←
      agent_run evidence_collector models svc.collector_ms
        (run_output finished finished.evidence_package)
  respond svc parsed template first second finished finished.evidence_package
