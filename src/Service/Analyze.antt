-- ===== src/Service/Analyze.antt =====
-- The question that `investigate` of services/investigation.py puts to the analyzer, and the type its
-- answer is held to.
pub mod Laws
use aiops_rca_orchestrator.Common.{
  Bool, true, not, ◌&&◌, Option, none, some, String, List, [], ◌∷◌, map, keep, all, length,
  is_empty, leb, ltb, ◌=ₜ◌, if◌then◌else◌,
}
use aiops_rca_orchestrator.Common.Dict.{Dict, lookup}
use aiops_rca_orchestrator.Common.Text.{contains, within, within_optional, matches_template_id}
use aiops_rca_orchestrator.Common.Value.{Value, str, dict, entries, get}
use aiops_rca_orchestrator.Common.Outcome.{
  Outcome, ok, raised, require, value_error, validation_error, ◌>>=◌, ◌>>◌, traverse,
}
use aiops_rca_orchestrator.Schema.Investigation.{
  RequestEnvelope, InitialWindowHint, relative, absolute, ParsedRequest,
}
use aiops_rca_orchestrator.Templates.Select.{ReportTemplate}
use aiops_rca_orchestrator.Service.Sections.{no_get, is_text}

-- `InvestigationApiRequest` of api/models.py.
pub record InvestigationApiRequest : Type 0 where
  pub request : RequestEnvelope
  pub prior_question : Option String
  pub templates : List ReportTemplate

pub record CatalogLine : Type 0 where
  pub id : String
  pub title : String
  pub when_to_use : String
  pub supplies_hosts : Bool
  pub supplies_window : Bool

-- `collection.get(key, {}).get(member) != text`
unfoldable pub differs : String → String → String → Dict Value → Outcome Bool
differs key member text collection = elim (lookup key collection) [
  | none ↦ ok true
  | some (dict part) ↦ ok (not (is_text text (get member (entries part))))
  | some _ ↦ raised no_get
]

unfoldable pub catalog_line : ReportTemplate → Outcome CatalogLine
unfolding differs
catalog_line t = do
  supplies_hosts ← differs "host_selector" "mode" "from_question" t.collection
  supplies_window ← differs "window" "range" "anchor_relative" t.collection
  ok (record {
    id = t.template_id;
    title = t.title;
    when_to_use = t.description;
    supplies_hosts = supplies_hosts;
    supplies_window = supplies_window;
  })

-- The payload, with the ids of the catalog that the type of the answer names.
pub record Question : Type 0 where
  pub request : RequestEnvelope
  pub prior_question : Option String
  pub report_catalog : List CatalogLine
  pub catalog_ids : List String

abbrev pub enabled_templates : List ReportTemplate → List ReportTemplate
enabled_templates templates = keep (λ t. t.enabled) templates

abbrev pub enabled_ids : List ReportTemplate → List String
enabled_ids templates = map (λ t. t.template_id) (enabled_templates templates)

-- The bounds and the validator of a window's hint.
unfoldable pub hint_fits : Option InitialWindowHint → Bool
hint_fits none = true
hint_fits (some (relative before later)) =
    leb 5 before && leb before 1440 && (leb 5 later && leb later 1440)
hint_fits (some (absolute start stop)) = ltb start stop

-- The bounds of the fields of `ParsedRequest` but for `request_type`, which the answer's type narrows.
unfoldable pub parsed_request_fits : ParsedRequest → Bool
unfolding within within_optional hint_fits
parsed_request_fits parsed =
    within 1 200 parsed.request_id
    && (leb (length parsed.host_queries) 20
        && (all (within 1 255) parsed.host_queries
            && (within 1 100 parsed.timezone
                && (within 1 2000 parsed.incident_description
                    && (within_optional 0 200 parsed.incident_type_hint
                        && (within 1 500 parsed.user_intent
                            && (hint_fits parsed.initial_window_hint
                                && (leb (length parsed.ambiguities) 20
                                    && (all (within 1 500) parsed.ambiguities
                                        && within 1 5000 parsed.original_question)))))))))

-- `_analyzer_output_type(catalog_ids)`: whether an answer is of that type.
unfoldable pub analyzer_output_type : List String → ParsedRequest → Bool
unfolding parsed_request_fits matches_template_id
analyzer_output_type catalog_ids parsed =
    parsed_request_fits parsed
    && (if is_empty catalog_ids
        then matches_template_id parsed.request_type
        else contains catalog_ids parsed.request_type)

-- The analyzer's turn; `complete` is the model's answer, before it is read as that type.
unfoldable pub analyze :
    (Question → Outcome ParsedRequest) → InvestigationApiRequest → Outcome ParsedRequest
unfolding catalog_line analyzer_output_type
analyze complete api = do
  lines ← traverse catalog_line (enabled_templates api.templates)
  let ids = enabled_ids api.templates
  parsed ← complete (record {
    request = api.request;
    prior_question = api.prior_question;
    report_catalog = lines;
    catalog_ids = ids;
  })
  require (analyzer_output_type ids parsed) (validation_error "CatalogBoundParsedRequest")
  if not (parsed.request_id =ₜ api.request.request_id)
      then raised (value_error "question analyzer changed request_id")
      else ok parsed
