-- ===== src/Sources.antt =====
-- sources.py: every evidence source that the service can reach.
use aiops_rca_orchestrator.Common.{
  Bool, true, false, Option, none, some, String, List, [], ◌∷◌, ◌++◌,
}
use aiops_rca_orchestrator.Common.{any}
use aiops_rca_orchestrator.Common.Text.{◌<>◌, sort, dedupe_from, begins_before}

pub data ToolSource : Type 0 where
  zabbix elasticsearch wazuh : ToolSource

pub record SourceProfile : Type 0 where
  pub name : ToolSource
  pub url_setting : String
  pub token_setting : Option String
  pub generic_prefix : String
  pub generic_evidence_type : String
  pub evidence_prefixes : List String

-- The text by which the source is written.
abbrev pub source_text : ToolSource → String
source_text zabbix = "zabbix"
source_text elasticsearch = "elasticsearch"
source_text wazuh = "wazuh"

abbrev pub source_eq : ToolSource → ToolSource → Bool
source_eq zabbix zabbix = true
source_eq elasticsearch elasticsearch = true
source_eq wazuh wazuh = true
source_eq _ _ = false

-- `SOURCES[name]`
abbrev pub sources : ToolSource → SourceProfile
sources zabbix = record {
  name = zabbix;
  url_setting = "zabbix_mcp_url";
  token_setting = some "zabbix_mcp_auth_token";
  generic_prefix = "zbx:object";
  generic_evidence_type = "observation";
  evidence_prefixes = "zbx:event" ∷ "zbx:trigger" ∷ "zbx:metric" ∷ "zbx:object" ∷ [];
}
sources elasticsearch = record {
  name = elasticsearch;
  url_setting = "oss_es_mcp_url";
  token_setting = none;
  generic_prefix = "log:lines";
  generic_evidence_type = "log_lines";
  evidence_prefixes = "log:summary" ∷ "log:lines" ∷ [];
}
sources wazuh = record {
  name = wazuh;
  url_setting = "wazuh_mcp_url";
  token_setting = some "wazuh_mcp_auth_token";
  generic_prefix = "wazuh:alerts";
  generic_evidence_type = "audit_alerts";
  evidence_prefixes = "wazuh:alerts" ∷ [];
}

-- `tuple(SOURCES)`
abbrev pub source_names : List ToolSource
source_names = zabbix ∷ elasticsearch ∷ wazuh ∷ []

-- The prefixes of the pattern of `evidence_id_pattern`, in its order.
unfoldable pub evidence_id_prefixes : List String
unfolding sort
evidence_id_prefixes = sort (
    dedupe_from [] (
      (sources zabbix).evidence_prefixes
      ++ ((sources elasticsearch).evidence_prefixes ++ (sources wazuh).evidence_prefixes)))

-- Whether the pattern `^(prefix|...):.+$` matches: a prefix, a colon and at least one character.
unfoldable pub matches_evidence_id : String → Bool
unfolding evidence_id_prefixes
matches_evidence_id s = any (λ p. begins_before (p <> ":") s) evidence_id_prefixes
