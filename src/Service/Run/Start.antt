-- ===== src/Service/Run/Start.antt =====
-- The state in which `investigate` of services/investigation.py starts the graph.
use aiops_rca_orchestrator.Common.{ℕ, false, Option, none, some, String, List, [], ◌∷◌, ◌++◌}
use aiops_rca_orchestrator.Common.Dict.{Dict}
use aiops_rca_orchestrator.Common.Value.{Value, ℤ, Runtime}
use aiops_rca_orchestrator.Common.Outcome.{Outcome, ◌>>=◌}
use aiops_rca_orchestrator.Schema.Investigation.{
  Moment, ParsedRequest, UnknownItem, InvestigationLimits,
}
use aiops_rca_orchestrator.Registry.{ToolRegistry}
use aiops_rca_orchestrator.State.{InvestigationState, rebuild}
use aiops_rca_orchestrator.Graph.{Answers}
use aiops_rca_orchestrator.Templates.Select.{Selected}
use aiops_rca_orchestrator.Templates.Window.{Zone}
use aiops_rca_orchestrator.Templates.Limits.{prepare_collection}
use aiops_rca_orchestrator.Service.Models.{Settings}
use aiops_rca_orchestrator.Service.Analyze.{Question, InvestigationApiRequest}
use aiops_rca_orchestrator.Service.Catalog.{Listing, Catalog, load_tool_catalog}

-- What one investigation is given: the settings, the servers, the model's answers and the clock.
-- `zone` is the zone of a name, `parse` what `int` makes of a text, `instant` the text of a moment.
pub record Service : Type 0 where
  pub rt : Runtime
  pub zone : String → Outcome Zone
  pub parse : String → Outcome ℤ
  pub instant : Moment → String
  pub settings : Settings
  pub registry : ToolRegistry
  pub listing : Listing
  pub analyzer : Question → Outcome ParsedRequest
  pub answers : ℕ → Answers
  pub investigation_id : String
  pub now : Moment
  pub analyzer_ms : ℕ
  pub collector_ms : ℕ

abbrev with_unknown : List UnknownItem → Option UnknownItem → List UnknownItem
with_unknown unknowns none = unknowns
with_unknown unknowns (some unknown) = unknowns ++ unknown ∷ []

-- The arguments of `InvestigationState(...)`, with the defaults of the others.
unfoldable pub first_state :
    Service
    → InvestigationApiRequest
    → ParsedRequest
    → Selected
    → Dict Value
    → InvestigationLimits
    → Catalog
    → InvestigationState
first_state svc api parsed selected collection limits catalog = record {
  investigation_id = svc.investigation_id;
  request = api.request;
  parsed_request = parsed;
  collection = collection;
  hosts = [];
  unresolved_hosts = [];
  phenomenon = none;
  hypotheses = [];
  known_facts = [];
  unknowns = with_unknown catalog.1 selected.1;
  next_questions = [];
  planned_tool_calls = [];
  tool_catalog = catalog.0;
  evidence = [];
  last_observations = [];
  tool_results = [];
  tool_errors = [];
  tool_call_purposes = [];
  iteration_count = 0;
  tool_call_count = 0;
  limits = limits;
  started_at = svc.now;
  stop_reason = none;
  limit_reached = false;
  fatal_error = none;
  evidence_package = none;
  template_output = some selected.0.output;
  report = none;
  report_findings = [];
  report_rejections = [];
  report_attempts = 0;
  routing_rejections = [];
  routing_attempts = 0;
  report_duration_ms = 0;
  visited_nodes = [];
}

-- From the template to the state.
unfoldable pub start :
    Service → InvestigationApiRequest → ParsedRequest → Selected → Outcome InvestigationState
unfolding prepare_collection load_tool_catalog first_state rebuild
start svc api parsed selected = do
  prepared ←
      prepare_collection svc.rt (svc.zone parsed.timezone) svc.parse svc.instant selected.0 parsed
        api.request
  catalog ← load_tool_catalog svc.rt svc.registry svc.listing
  rebuild (first_state svc api parsed selected prepared.0 prepared.1 catalog)
