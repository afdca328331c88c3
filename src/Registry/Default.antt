-- ===== src/Registry/Default.antt =====
-- `DEFAULT_TOOL_REGISTRY` of tools/registry.py.
use aiops_rca_orchestrator.Common.{ℕ, Option, none, some, String, List, [], ◌∷◌}
use aiops_rca_orchestrator.Sources.{ToolSource, zabbix, elasticsearch, wazuh}
use aiops_rca_orchestrator.Registry.Policy.{
  ToolKind, structured, generic, inventory, ToolPolicy, ToolRegistry,
}

abbrev pub tool :
    String
    → ToolSource
    → ToolKind
    → (requires requires_any : List String) → ℕ
    → List String
    → Option String
    → ToolPolicy
tool name source kind requires requires_any priority result_list_fields window_policy_argument =
    record {
      name = name;
      source = source;
      kind = kind;
      requires = requires;
      requires_any = requires_any;
      priority = priority;
      blocked_reason = none;
      result_list_fields = result_list_fields;
      window_policy_argument = window_policy_argument;
    }

abbrev get_mappings : ToolPolicy
get_mappings = record (tool "get_mappings" elasticsearch inventory ("index" ∷ []) [] 200 [] none) {
  blocked_reason = some "known upstream response decoding failure";
}

abbrev pub default_tool_registry : ToolRegistry
default_tool_registry = record {
  policies =
      tool "find_hosts" zabbix structured [] ("query" ∷ "group_ids" ∷ []) 10 ("hosts" ∷ []) none
      ∷ tool "get_incident_events" zabbix structured ("time_from" ∷ "time_to" ∷ []) [] 20
          ("events" ∷ []) (some "policy")
      ∷ tool "get_trigger_details" zabbix structured ("trigger_id" ∷ []) [] 20 [] none
      ∷ tool "get_related_events" zabbix structured ("time_from" ∷ "time_to" ∷ [])
          ("trigger_ids" ∷ "tags" ∷ []) 25 ("events" ∷ []) (some "policy")
      ∷ tool "list_relevant_metrics" zabbix structured ("keywords" ∷ []) [] 20 ("metrics" ∷ []) none
      ∷ tool "get_metric_summary" zabbix structured
          ("item_ids" ∷ "time_from" ∷ "time_to" ∷ "aggregation" ∷ []) [] 20
          ("series" ∷ "metrics" ∷ []) (some "policy")
      ∷ tool "get_metric_history" zabbix structured
          ("item_id" ∷ "time_from" ∷ "time_to" ∷ "aggregation" ∷ []) [] 30 ("points" ∷ []) none
      ∷ tool "query_zabbix" zabbix generic ("method" ∷ []) [] 90 ("rows" ∷ []) none
      ∷ tool "search" elasticsearch generic ("index" ∷ "query_body" ∷ []) [] 80 ("hits" ∷ []) none
      ∷ tool "esql" elasticsearch generic ("query" ∷ []) [] 80 [] none
      ∷ get_mappings
      ∷ tool "list_indices" elasticsearch inventory ("index_pattern" ∷ []) [] 200 [] none
      ∷ tool "get_shards" elasticsearch inventory [] [] 200 [] none
      ∷ tool "get_wazuh_alert_summary" wazuh structured ("time_from" ∷ "time_to" ∷ []) [] 20
          ("alerts" ∷ []) none
      ∷ tool "get_wazuh_agents" wazuh structured [] [] 25 ("agents" ∷ []) none
      ∷ tool "get_wazuh_agent_processes" wazuh structured ("agent_id" ∷ []) [] 30 ("processes" ∷ [])
          none
      ∷ tool "get_wazuh_agent_ports" wazuh structured ("agent_id" ∷ "protocol" ∷ "state" ∷ []) [] 30
          ("ports" ∷ []) none
      ∷ [];
}
