-- ===== src/Examples/Samples.antt =====
-- Concrete states, tools and surroundings, for the examples.
use aiops_rca_orchestrator.Common.{
  ℕ, zero, suc, true, false, none, some, String, List, [], ◌∷◌, ◌=ₜ◌,
}
use aiops_rca_orchestrator.Common.Value.{null, str, dict, field, end, Runtime}
use aiops_rca_orchestrator.Common.Outcome.{ok, raised, value_error, runtime_error}
use aiops_rca_orchestrator.Sources.{zabbix}
use aiops_rca_orchestrator.Schema.Investigation.{
  active, ready, ObservationQuestion, current, InvestigationLimits, ToolExecutionResult,
  ToolExecutionStatus, PlannedToolCall,
}
use aiops_rca_orchestrator.Schema.Evidence.{Evidence}
use aiops_rca_orchestrator.Schema.Decisions.{HypothesisUpdateDecision, ObservationDecision}
use aiops_rca_orchestrator.Registry.Default.{default_tool_registry}
use aiops_rca_orchestrator.State.{InvestigationState}
use aiops_rca_orchestrator.Nodes.World.{World}
use aiops_rca_orchestrator.Graph.{Answers}

abbrev pub rt : Runtime
rt = record {
  repr = λ s. s;
  render = λ v. "";
  casefold = λ s. s;
  loads = λ s. ok (dict end);
  dumps = λ v. "";
  is_digit = λ s. true;
  fingerprint = λ v. "";
  fromisoformat = λ s. none;
  strip = λ s. s;
  round_whole = λ m e. null;
  round_places = λ m e. null;
}

abbrev pub reply : ToolExecutionResult
reply = record {
  tool_call_id = "call-1";
  tool_name = "get_wazuh_agents";
  source = zabbix;
  status = ToolExecutionStatus.ok;
  request = [];
  response = null;
  error = none;
  started_at = 0;
  finished_at = 1;
}

-- The first call of a node answers; every other raises.
abbrev pub world : World
world = record {
  rt = rt;
  model = record {
    evidence_eq = λ a b. a.evidence_id =ₜ b.evidence_id;
    model_validate = λ e. ok e;
  };
  registry = default_tool_registry;
  execute = λ offset call context. elim offset [
    | zero ↦ ok reply
    | suc n ↦ raised (runtime_error "down")
  ];
}

abbrev pub limits : InvestigationLimits
limits = record { max_tool_calls = 2; max_iterations = 1; max_duration_seconds = 60 }

-- An investigation as it starts, which names no host.
abbrev pub started : InvestigationState
started = record {
  investigation_id = "i";
  request = record {
    request_id = "r";
    source = "web";
    received_at = 0;
    timezone = "UTC";
    question = "why";
    metadata = [];
  };
  parsed_request = record {
    request_id = "r";
    parse_status = ready;
    request_type = "rca";
    host_queries = [];
    anchor_time = none;
    timezone = "UTC";
    incident_description = "slow";
    incident_type_hint = none;
    user_intent = "why";
    initial_window_hint = none;
    allow_dynamic_expansion = true;
    ambiguities = [];
    original_question = "why";
  };
  collection = [];
  hosts = [];
  unresolved_hosts = [];
  phenomenon = none;
  hypotheses = [];
  known_facts = [];
  unknowns = [];
  next_questions = [];
  planned_tool_calls = [];
  tool_catalog = [];
  evidence = [];
  last_observations = [];
  tool_results = [];
  tool_errors = [];
  tool_call_purposes = [];
  iteration_count = 0;
  tool_call_count = 0;
  limits = limits;
  started_at = 0;
  stop_reason = none;
  limit_reached = false;
  fatal_error = none;
  evidence_package = none;
  template_output = none;
  report = none;
  report_findings = [];
  report_rejections = [];
  report_attempts = 0;
  routing_rejections = [];
  routing_attempts = 0;
  report_duration_ms = 0;
  visited_nodes = [];
}

-- An investigation as it starts, with a host to look for.
abbrev pub asked : InvestigationState
asked = record started {
  parsed_request = record started.parsed_request { host_queries = "web-1" ∷ [] };
}

abbrev question : String → ObservationQuestion
question tool = record {
  question = "which agents are connected";
  discriminates_hypothesis_ids = [];
  expected_if_true = [];
  expected_if_false = [];
  temporal_scope = current;
  required_tool = some tool;
  arguments = [];
  host = none;
  generic_fallback_allowed = false;
}

-- A turn that asks a tool that is held and one that is not.
abbrev pub asking : InvestigationState
asking = record started {
  next_questions = question "get_wazuh_agents" ∷ question "ping" ∷ [];
  iteration_count = 1;
}

abbrev call : PlannedToolCall
call = record {
  tool_name = "get_wazuh_agents";
  arguments = [];
  purpose = "which agents are connected";
  target_hypothesis_ids = [];
  host = none;
  host_id = none;
}

-- Two calls are planned, of which the second fails.
abbrev pub planned : InvestigationState
planned = record asking { planned_tool_calls = call ∷ call ∷ [] }

abbrev copies {ℓ} : {A : Type ℓ} → ℕ → A → List A
copies zero a = []
copies (suc n) a = a ∷ copies n a

-- More unknowns than a state holds.
abbrev pub crowded : InvestigationState
crowded = record started {
  unknowns =
      copies 120
        (record { code = "tool_error"; message = "down"; host_query = none; tool_call_id = none });
}

abbrev pub evidence : String → Evidence
evidence id = record {
  evidence_id = id;
  evidence_type = "zabbix_event";
  source = zabbix;
  summary = "s";
  observed_at = null;
  window = none;
  resource_ids = record { host_id = none; event_id = none; trigger_id = none; item_id = none };
  metric = none;
  observed = none;
  data_quality = null;
  tool_call_id = "call-1";
  search_query = none;
}

-- A state with one piece of evidence and a fact that rests on it.
abbrev pub known : InvestigationState
known = record started {
  evidence = evidence "ZBX-EVENT-1" ∷ [];
  known_facts = record { fact = "the host was slow"; evidence_ids = "ZBX-EVENT-1" ∷ [] } ∷ [];
}

-- One that has an observation to reason over, and a hypothesis.
abbrev pub observed : InvestigationState
observed = record known {
  collection =
      (
        "resolved_window",
        dict (field "from" (str "2026-01-01") (field "to" (str "2026-01-02") end)),
      )
      ∷ [];
  last_observations = reply ∷ [];
  hypotheses =
      record {
        id = "H1";
        statement = "the disk is full";
        status = active;
        supporting_evidence_ids = [];
        counter_evidence_ids = [];
        rationale = none;
      }
      ∷ [];
}

-- An update that cites evidence that is known and evidence that is not, and a fact of the latter.
abbrev pub update : HypothesisUpdateDecision
update = record {
  updates =
      record {
        hypothesis_id = "H1";
        status = active;
        supporting_evidence_ids = "ZBX-EVENT-1" ∷ "ZBX-EVENT-9" ∷ [];
        counter_evidence_ids = [];
        rationale = none;
      }
      ∷ [];
  new_hypotheses = [];
  new_facts = record { fact = "the disk is full"; evidence_ids = "ZBX-EVENT-9" ∷ [] } ∷ [];
  stop_reason = none;
}

-- A turn with one observation that tells the hypothesis from its rivals.
abbrev pub decision : ObservationDecision
decision = record {
  observations =
      record {
        question = "which agents are connected";
        discriminates_hypothesis_ids = "H1" ∷ [];
        expected_if_true = [];
        expected_if_false = [];
        temporal_scope = current;
        required_tool = "get_wazuh_agents";
        host = none;
        arguments_json = "{}";
        generic_fallback_allowed = false;
      }
      ∷ [];
  stop_reason = none;
}

abbrev pub answers : Answers
answers = record {
  world = world;
  ask_hosts = λ turn search. record {
    hosts = [];
    tool_name = none;
    arguments_json = "{}";
    stop_reason = some "no host";
  };
  scans = [];
  phenomenon = "slow";
  hypotheses = record { hypotheses = []; stop_reason = none };
  observations = record { observations = []; stop_reason = none };
  update = record { updates = []; new_hypotheses = []; new_facts = []; stop_reason = none };
  now = 1;
  window_valid = λ window. true;
  write = λ state pack template. raised (value_error "no draft");
  check = λ pack report template. ok [];
}
