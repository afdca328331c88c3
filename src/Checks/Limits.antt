-- ===== src/Checks/Limits.antt =====
-- `unknowns_reach_limitations`, `required_sections_are_answered` and `unsupported_cause_is_admitted`
-- of evals/properties.py: what a report must say about its limits.
pub mod Laws
use aiops_rca_orchestrator.Common.{
  Bool, true, false, not, ◌&&◌, ◌||◌, Option, none, some, String, List, [], ◌∷◌, ◌++◌, map, any,
  keep, length, is_empty, ◌=ₜ◌, if◌then◌else◌,
}
use aiops_rca_orchestrator.Common.Text.{◌<>◌, contains, join, decimal}
use aiops_rca_orchestrator.Common.Value.{
  Value, str, list, dict, Items, items, entries, get, or_else, truthy, to_str,
}
use aiops_rca_orchestrator.Common.Outcome.{Outcome, ok, ◌>>=◌}
use aiops_rca_orchestrator.Nodes.Writer.{Finding}
use aiops_rca_orchestrator.Service.Sections.{hashed}
use aiops_rca_orchestrator.Checks.Documents.{
  Reader, Document, mappings, sections_of, texts, section_id, shown,
}

-- `_NO_LIMITS`
abbrev pub no_limits : List String
no_limits = "해당 없음" ∷ "없음" ∷ "특이사항 없음" ∷ "N/A" ∷ "none" ∷ []

-- `_stated(text)`
unfoldable pub stated : String → Bool
stated text = not (text =ₜ "") && not (contains no_limits text)

abbrev is_limitations : Reader → Document → Bool
is_limitations r section = section_id r section =ₜ "limitations"

-- `" ".join(_texts(section)).strip()`
unfoldable pub joined : Reader → Document → String
unfolding texts join
joined r section = r.rt.strip (join " " (texts section))

-- The first section for the limitations.
unfoldable pub limits_section : Reader → List Document → Option Document
limits_section r [] = none
limits_section r (s ∷ ss) = if is_limitations r s then some s else limits_section r ss

abbrev joined_or_empty : Reader → Option Document → String
joined_or_empty r none = ""
joined_or_empty r (some section) = joined r section

-- `_limitations(report)`
unfoldable pub limitations : Reader → Document → String
unfolding sections_of limits_section joined
limitations r report = joined_or_empty r (limits_section r (sections_of report))

abbrev shown_text : Reader → String → String
shown_text r text = r.rt.repr (if text =ₜ "" then "(empty)" else text)

abbrev silent_on : Reader → List Value → String → List Finding
silent_on r unknowns text =
    if stated text
    then []
    else record {
      check = "unknowns_reach_limitations";
      detail =
          decimal (length unknowns)
          <> (" unknowns recorded, limitations says " <> shown_text r text);
      section_id = some "limitations";
    }
      ∷ []

abbrev unknowns_against : Reader → List Value → Option Document → List Finding
unknowns_against r unknowns none = []
unknowns_against r unknowns (some section) = silent_on r unknowns (joined r section)

abbrev unknowns_of : Reader → Document → Value → List Finding
unknowns_of r report (list vs) =
    if is_empty (items vs)
    then []
    else unknowns_against r (items vs) (limits_section r (sections_of report))
unknowns_of r report _ = []

-- `unknowns_reach_limitations(package, report)`
unfoldable pub unknowns_reach_limitations : Reader → (pack report : Document) → List Finding
unfolding stated joined limits_section sections_of
unknowns_reach_limitations r pack report = unknowns_of r report (get "unknowns" pack)

-- `any(_texts(section))`
unfoldable pub is_filled : Document → Bool
unfolding texts
is_filled section = any (λ t. not (t =ₜ "")) (texts section)

-- The ids of the sections that hold a text.
unfoldable pub filled_ids : Reader → List Document → List String
unfolding is_filled
filled_ids r sections = map (section_id r) (keep is_filled sections)

-- Whether the section is required and neither filled nor the one for the limitations.
unfoldable pub is_missing : Reader → List String → Document → Bool
unfolding truthy
is_missing r filled declared =
    truthy (get "required" declared)
    && not (contains filled (section_id r declared) || section_id r declared =ₜ "limitations")

unfoldable pub unanswered : Reader → Document → Finding
unanswered r declared = record {
  check = "required_sections_are_answered";
  detail =
      r.rt.repr (to_str r.rt (or_else (get "heading" declared) (str (section_id r declared))))
      <> " is required and empty, and the report states no limitation";
  section_id = some (section_id r declared);
}

abbrev required_of : Reader → Document → Value → List Finding
required_of r report (list vs) =
    if is_empty (sections_of report) || stated (limitations r report)
    then []
    else map (unanswered r)
        (keep (is_missing r (filled_ids r (sections_of report))) (mappings (items vs)))
required_of r report _ = []

-- `required_sections_are_answered(package, report, template)`
unfoldable pub required_sections_are_answered : Reader → (report template : Document) → List Finding
unfolding sections_of limitations stated filled_ids is_missing unanswered
required_sections_are_answered r report template = required_of r report (get "sections" template)

abbrev is_backed : Value → Bool
is_backed (str s) = s =ₜ "high" || s =ₜ "medium"
is_backed _ = false

-- Whether some hypothesis has a confidence of at least `medium`, as far as they are read to find it.
unfoldable pub some_backed : List Document → Outcome Bool
unfolding hashed
some_backed [] = ok false
some_backed (h ∷ hs) = hashed (get "confidence" h) >>= λ confidence.
    if is_backed confidence then ok true else some_backed hs

abbrev cause_of : Reader → Document → Value → Outcome (List Finding)
cause_of r report (list vs) =
    if is_empty (items vs)
    then ok []
    else (some_backed (mappings (items vs)) >>= λ backed. ok (
        if backed || stated (limitations r report)
        then []
        else record {
          check = "unsupported_cause_is_admitted";
          detail =
              "none of the "
              <> (decimal (length (items vs))
                  <> " hypotheses was supported and the report states no limitation");
          section_id = some "limitations";
        }
          ∷ []))
cause_of r report _ = ok []

-- `unsupported_cause_is_admitted(package, report)`
unfoldable pub unsupported_cause_is_admitted :
    Reader → (pack report : Document) → Outcome (List Finding)
unfolding some_backed limitations stated
unsupported_cause_is_admitted r pack report = cause_of r report (get "hypotheses" pack)
