-- ===== src/Examples/Requests.antt =====
-- A request, its template and the surroundings of the service, for the examples.
use aiops_rca_orchestrator.Common.{
  ◌*◌, true, false, none, some, String, List, [], ◌∷◌, ◌=ₜ◌, if◌then◌else◌,
}
use aiops_rca_orchestrator.Common.Value.{
  Value, null, bool, str, list, dict, nil, cons, field, end, pos,
}
use aiops_rca_orchestrator.Common.Outcome.{Outcome, ok, raised, runtime_error}
use aiops_rca_orchestrator.Schema.Investigation.{ParsedRequest, relative, UnknownItem}
use aiops_rca_orchestrator.Schema.Evidence.{Evidence, EvidencePackage}
use aiops_rca_orchestrator.Schema.Report.{Report, ReportItem}
use aiops_rca_orchestrator.State.{InvestigationState}
use aiops_rca_orchestrator.Registry.Default.{default_tool_registry}
use aiops_rca_orchestrator.Templates.Select.{ReportTemplate}
use aiops_rca_orchestrator.Templates.Window.{Zone, day}
use aiops_rca_orchestrator.Graph.{Answers}
use aiops_rca_orchestrator.Service.Writer.{writer}
use aiops_rca_orchestrator.Service.Models.{Settings}
use aiops_rca_orchestrator.Service.Analyze.{InvestigationApiRequest}
use aiops_rca_orchestrator.Service.Run.Start.{Service}
use aiops_rca_orchestrator.Checks.Documents.{Reader}
use aiops_rca_orchestrator.Examples.Samples.{rt, started, answers, evidence}

abbrev section : String → Value
section id = dict (field "id" (str id) (field "required" (bool true) end))

abbrev pub template : ReportTemplate
template = record {
  template_id = "incident_rca";
  version = 1;
  title = "Incident";
  description = "What went wrong";
  enabled = true;
  collection = ("host_selector", dict (field "mode" (str "from_question") end)) ∷ [];
  output = ("sections", list (cons (section "cause") (cons (section "limitations") nil))) ∷ [];
}

-- A zone without an offset, whose months have 30 days.
abbrev pub zone : Outcome Zone
zone = ok (record { wall = λ m. m; instant = λ m. m; day_of_month = λ d. 1 })

abbrev pub api : InvestigationApiRequest
api = record {
  request = record started.request { received_at = 40 * day };
  prior_question = none;
  templates = template ∷ [];
}

abbrev pub parsed : ParsedRequest
parsed = record started.parsed_request {
  request_type = "incident_rca";
  initial_window_hint = some (relative 60 60);
}

abbrev pub settings : Settings
settings = record {
  rca_model = "model-1";
  rca_model_question_analyzer = none;
  rca_model_resolve_hosts = none;
  rca_model_establish_phenomenon = none;
  rca_model_hypothesis_planner = none;
  rca_model_observation_planner = none;
  rca_model_hypothesis_updater = some "model-2";
  rca_model_report_writer = none;
}

-- No server answers, and the question names no host.
abbrev pub service : Service
service = record {
  rt = rt;
  zone = λ name. zone;
  parse = λ s. ok (pos 1);
  instant = λ m. "2026-01-01";
  settings = settings;
  registry = default_tool_registry;
  listing = λ source. raised (runtime_error "down");
  analyzer = λ question. ok parsed;
  answers = λ k. answers;
  investigation_id = "inv-1";
  now = 40 * day;
  analyzer_ms = 5;
  collector_ms = 7;
}

-- A host that was not found, behind another unknown.
abbrev pub unsettled : List UnknownItem
unsettled =
    record { code = "tool_error"; message = "down"; host_query = none; tool_call_id = none }
    ∷ record { code = "host_not_found"; message = "web-1"; host_query = none; tool_call_id = none }
    ∷ []

abbrev pub event : String → Evidence
event id = record (evidence id) { evidence_type = "event" }

abbrev pub report_item : List String → ReportItem
report_item refs = record {
  text = "2건";
  label = none;
  evidence_refs = refs;
  counter_evidence_refs = [];
}

abbrev pub draft : List String → Report
draft refs = record {
  title = "Incident";
  sections = record { id = "cause"; body = none; items = report_item refs ∷ [] } ∷ [];
}

abbrev pub reader : Reader
reader = record {
  rt = rt;
  counted = λ s. ("2", "건") ∷ [];
  embedded = λ s. [];
  digits = λ s. [];
  parse = λ s. ok (if s =ₜ "1" then pos 1 else pos 2);
  characters = λ s. [];
}

abbrev pub pack : EvidencePackage
pack = record {
  request = record { request_id = "r"; original_question = "why"; requested_by = "web" };
  query_context = record { hosts = []; timezone = "UTC"; anchor_time = 0 };
  investigation = record {
    initial_window = record { from = str "a"; to = str "b"; aggregation = null };
    final_window = record { from = str "a"; to = str "b"; aggregation = null };
    iterations = 1;
    tool_calls = [];
    expansion_reasons = [];
    stop_reason = "done";
    limit_reached = false;
  };
  observed_failure_mode = "slow";
  evidence = event "zbx:event:1" ∷ event "zbx:event:2" ∷ [];
  confirmed_facts = [];
  hypotheses = [];
  unknowns = [];
}

abbrev pub reporting : InvestigationState
reporting = record started { evidence_package = some pack; template_output = some template.output }

-- A visit of an investigation that finds a host, has nothing to test, and drafts a report.
abbrev pub drafting : Answers
drafting = record answers {
  ask_hosts = λ turn search. record {
    hosts = record { host = "web-1"; host_id = none; found_by = "zabbix" } ∷ [];
    tool_name = none;
    arguments_json = "{}";
    stop_reason = none;
  };
  hypotheses = record { hypotheses = []; stop_reason = some "nothing to test" };
  write = writer rt (λ d. ok (draft [])) 9;
}

abbrev pub delivering : Service
delivering = record service { answers = λ k. drafting }
