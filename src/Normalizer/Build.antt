-- ===== src/Normalizer/Build.antt =====
-- `normalize_observation` of tools/normalizer.py and the builders that it chooses from.
use aiops_rca_orchestrator.Common.{
  ◌||◌, Option, none, some, String, List, [], ◌∷◌, ◌++◌, ◌=ₜ◌, if◌then◌else◌,
}
use aiops_rca_orchestrator.Common.Text.{◌<>◌, join}
use aiops_rca_orchestrator.Common.Dict.{Dict}
use aiops_rca_orchestrator.Common.Value.{
  Value, null, str, list, dict, nil, cons, items, entries, fields, get, or_else, truthy, to_str,
  Runtime,
}
use aiops_rca_orchestrator.Common.Outcome.{Outcome, ok, traverse, ◌>>=◌}
use aiops_rca_orchestrator.Sources.{zabbix, sources}
use aiops_rca_orchestrator.Schema.Investigation.{ToolExecutionResult, is_error, PlannedToolCall}
use aiops_rca_orchestrator.Schema.Evidence.{Evidence, ObservedList}
use aiops_rca_orchestrator.Registry.{ToolRegistry}
use aiops_rca_orchestrator.Normalizer.Merge.{EvidenceModel}
use aiops_rca_orchestrator.Normalizer.Fields.{
  mapping, optional_text, bounded, window_of, window_from_arguments, resource_ids, digits,
  evidence_id, search_query, metric_of, metric_text, rounded_quality,
}
use aiops_rca_orchestrator.Normalizer.Rows.{observed_list, observed_text}

module _ (rt : Runtime) (model : EvidenceModel) where
  request_fingerprint : ToolExecutionResult → String
  request_fingerprint result = rt.fingerprint (dict (fields result.request))

  -- The evidence that a window without events leaves.
  no_event : ToolExecutionResult → Dict Value → Option String → Outcome Evidence
  unfolding request_fingerprint window_of resource_ids
  no_event result response host_id = do
    ids ← resource_ids rt host_id none none none
    model.model_validate (record {
      evidence_id = "zbx:event:none:" <> request_fingerprint result;
      evidence_type = "observation";
      source = zabbix;
      summary = "No Zabbix problem event was returned for the requested host and window.";
      observed_at = null;
      window = window_of response;
      resource_ids = ids;
      metric = none;
      observed = none;
      data_quality = null;
      tool_call_id = result.tool_call_id;
      search_query = none;
    })

  generated_event_id : Dict Value → String
  unfolding digits
  generated_event_id event = elim (digits rt (get "event_id" event)) [
    | none ↦ "zbx:event:unidentified:" <> rt.fingerprint (dict (fields event))
    | some event_id ↦ "zbx:event:" <> event_id
  ]

  detail : String → Value → List String
  unfolding truthy to_str
  detail label value = if truthy value then (label <> to_str rt value) ∷ [] else []

  event_summary : Dict Value → String
  unfolding detail bounded join to_str truthy
  event_summary event = bounded (
      join "; " (
        to_str rt (or_else (get "name" event) (str "Zabbix problem event"))
          ∷ detail "severity=" (get "severity" event)
        ++ detail "recovered_at=" (get "recovered_at" event)))

  -- One round of the loop over the events.
  event : ToolExecutionResult → Dict Value → Option String → Dict Value → Outcome Evidence
  unfolding generated_event_id event_summary digits evidence_id window_of resource_ids
  event result response host_id e = do
    ids ←
        resource_ids rt host_id (digits rt (get "event_id" e)) (digits rt (get "trigger_id" e)) none
    model.model_validate (record {
      evidence_id = evidence_id (get "evidence_id" e) (generated_event_id e);
      evidence_type = "event";
      source = zabbix;
      summary = event_summary e;
      observed_at = get "started_at" e;
      window = window_of response;
      resource_ids = ids;
      metric = none;
      observed = none;
      data_quality = null;
      tool_call_id = result.tool_call_id;
      search_query = none;
    })

  -- The members of a list that are mappings.
  abbrev mappings : List Value → List (Dict Value)
  mappings [] = []
  mappings (dict d ∷ vs) = entries d ∷ mappings vs
  mappings (v ∷ vs) = mappings vs

  events_of : ToolExecutionResult → Dict Value → Option String → Value → Outcome (List Evidence)
  unfolding no_event event
  events_of result response host_id (list (cons v vs)) =
      traverse (event result response host_id) (mappings (v ∷ items vs))
  events_of result response host_id _ =
      no_event result response host_id >>= λ evidence. ok (evidence ∷ [])

  -- `_event_evidence`
  unfoldable pub event_evidence :
      ToolExecutionResult → Dict Value → Option String → Outcome (List Evidence)
  unfolding events_of
  event_evidence result response host_id = events_of result response host_id (get "events" response)

  trigger_text : Dict Value → String
  unfolding to_str truthy
  trigger_text response =
      let description =
        to_str rt (or_else (get "description" response) (str "Zabbix trigger definition")) in
      if truthy (get "expression" response)
      then description <> ("; expression=" <> to_str rt (get "expression" response))
      else description

  -- `_trigger_evidence`
  unfoldable pub trigger_evidence :
      ToolExecutionResult → Dict Value → Option String → Outcome Evidence
  unfolding trigger_text bounded digits evidence_id resource_ids
  trigger_evidence result response host_id = do
    let trigger_id = digits rt (get "trigger_id" response)
    ids ← resource_ids rt host_id none trigger_id none
    model.model_validate (record {
      evidence_id =
          evidence_id (get "evidence_id" response) ("zbx:trigger:" <> optional_text trigger_id);
      evidence_type = "trigger";
      source = zabbix;
      summary = bounded (trigger_text response);
      observed_at = null;
      window = none;
      resource_ids = ids;
      metric = none;
      observed = none;
      data_quality = null;
      tool_call_id = result.tool_call_id;
      search_query = none;
    })

  -- The evidence of one measured item: a series of a summary, or a whole history.
  measured :
      String → ToolExecutionResult → Dict Value → Option String → Dict Value → Outcome Evidence
  unfolding digits evidence_id request_fingerprint metric_of metric_text window_of resource_ids
      rounded_quality
  measured evidence_type result response host_id entry = do
    let item = mapping (get "item" entry)
    let item_id = digits rt (get "item_id" item)
    let metric = metric_of rt item (mapping (get "summary" entry))
    ids ← resource_ids rt host_id none none item_id
    quality ← rounded_quality rt (get "data_quality" entry)
    model.model_validate (record {
      evidence_id =
          evidence_id (get "evidence_id" entry)
            ("zbx:metric:" <> (optional_text item_id <> (":" <> request_fingerprint result)));
      evidence_type = evidence_type;
      source = zabbix;
      summary = metric_text rt metric;
      observed_at = null;
      window = window_of response;
      resource_ids = ids;
      metric = some metric;
      observed = none;
      data_quality = quality;
      tool_call_id = result.tool_call_id;
      search_query = none;
    })

  series_of : ToolExecutionResult → Dict Value → Option String → Value → Outcome (List Evidence)
  unfolding measured
  series_of result response host_id (list series) =
      traverse (measured "metric_summary" result response host_id) (mappings (items series))
  series_of result response host_id _ = ok []

  -- `_metric_summary_evidence`
  unfoldable pub metric_summary_evidence :
      ToolExecutionResult → Dict Value → Option String → Outcome (List Evidence)
  unfolding series_of
  metric_summary_evidence result response host_id =
      series_of result response host_id (get "series" response)

  -- `_metric_history_evidence`
  unfoldable pub metric_history_evidence :
      ToolExecutionResult → Dict Value → Option String → Outcome Evidence
  unfolding measured
  metric_history_evidence result response host_id =
      measured "metric_history" result response host_id response

  generic_summary : PlannedToolCall → Option ObservedList → Value → String
  unfolding bounded observed_text
  generic_summary planned none response = bounded (planned.purpose <> (": " <> rt.dumps response))
  generic_summary planned (some observed) response =
      bounded (planned.purpose <> (": " <> observed_text rt observed response))

  -- `_generic_evidence`
  unfoldable pub generic_evidence :
      ToolRegistry
      → ToolExecutionResult
      → PlannedToolCall
      → Option String
      → String
      → Outcome Evidence
  unfolding observed_list generic_summary window_from_arguments resource_ids rounded_quality
      search_query
  generic_evidence registry result planned host_id host = do
    let profile = sources result.source
    let observed = observed_list rt registry result.tool_name result.response
    ids ← resource_ids rt host_id none none none
    quality ← rounded_quality rt (get "data_quality" (mapping result.response))
    model.model_validate (record {
      evidence_id =
          profile.generic_prefix
          <> (":"
              <> (host
                  <> (":"
                      <> rt.fingerprint (
                          list
                            (cons (dict (fields planned.arguments)) (cons result.response nil))))));
      evidence_type = profile.generic_evidence_type;
      source = result.source;
      summary = generic_summary planned observed result.response;
      observed_at = null;
      window = window_from_arguments result.request;
      resource_ids = ids;
      metric = none;
      observed = observed;
      data_quality = quality;
      tool_call_id = result.tool_call_id;
      search_query = search_query rt planned.arguments;
    })

  abbrev one : Outcome Evidence → Outcome (List Evidence)
  one outcome = outcome >>= λ evidence. ok (evidence ∷ [])

  normalize_mapping :
      ToolRegistry
      → ToolExecutionResult
      → PlannedToolCall
      → Option String
      → String
      → Dict Value
      → Outcome (List Evidence)
  unfolding event_evidence trigger_evidence metric_summary_evidence metric_history_evidence
      generic_evidence
  normalize_mapping registry result planned host_id host response =
      if result.tool_name =ₜ "get_incident_events" || result.tool_name =ₜ "get_related_events"
      then event_evidence result response host_id
      else if result.tool_name =ₜ "get_trigger_details"
      then one (trigger_evidence result response host_id)
      else if result.tool_name =ₜ "get_metric_summary"
      then metric_summary_evidence result response host_id
      else if result.tool_name =ₜ "get_metric_history"
      then one (metric_history_evidence result response host_id)
      else one (generic_evidence registry result planned host_id host)

  normalize_response :
      ToolRegistry
      → ToolExecutionResult
      → PlannedToolCall
      → Option String
      → String
      → Value
      → Outcome (List Evidence)
  unfolding normalize_mapping generic_evidence
  normalize_response registry result planned host_id host (dict response) =
      normalize_mapping registry result planned host_id host (entries response)
  normalize_response registry result planned host_id host _ =
      one (generic_evidence registry result planned host_id host)

  -- `normalize_observation(result, planned, host_id=host_id, host=host)`
  unfoldable pub normalize_observation :
      ToolRegistry
      → ToolExecutionResult
      → PlannedToolCall
      → Option String
      → String
      → Outcome (List Evidence)
  unfolding normalize_response
  normalize_observation registry result planned host_id host =
      if is_error result.status
      then ok []
      else normalize_response registry result planned host_id host result.response
