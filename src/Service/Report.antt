-- ===== src/Service/Report.antt =====
-- `_validate_report` and `_reconcile_evidence` of services/investigation.py.
pub mod Laws
pub mod Valid
pub mod Events
use aiops_rca_orchestrator.Common.{
  ℕ, Bool, true, false, not, ◌&&◌, Option, none, some, String, List, [], ◌∷◌, ◌++◌, map, any, all,
  keep, take, ◌=ₜ◌, if◌then◌else◌, is_empty,
}
use aiops_rca_orchestrator.Common.Dict.{Dict}
use aiops_rca_orchestrator.Common.Text.{◌<>◌, contains, text_take, within}
use aiops_rca_orchestrator.Common.Value.{Value}
use aiops_rca_orchestrator.Common.Outcome.{
  Outcome, ok, require, value_error, validation_error, ◌>>=◌, ◌>>◌, traverse,
}
use aiops_rca_orchestrator.Schema.Report.{Report, ReportSection, ReportItem}
use aiops_rca_orchestrator.Schema.Evidence.{Evidence}
use aiops_rca_orchestrator.State.Validity.{unique}
use aiops_rca_orchestrator.Service.Sections.{is_text, declared_ids, declares}

abbrev pub item_refs : ReportItem → List String
item_refs item = item.evidence_refs ++ item.counter_evidence_refs

abbrev pub items_refs : List ReportItem → List String
items_refs [] = []
items_refs (item ∷ items) = item_refs item ++ items_refs items

-- The references of all sections.
abbrev pub references : List ReportSection → List String
references [] = []
references (section ∷ sections) = items_refs section.items ++ references sections

abbrev pub section_ids : Report → List String
section_ids report = map (λ s. s.id) report.sections

abbrev pub package_ids : List Evidence → List String
package_ids evidence = map (λ e. e.evidence_id) evidence

-- `_validate_report(report, output, package)`, where the package holds `evidence`.
unfoldable pub validate_report : Report → Dict Value → List Evidence → Outcome (Unit {0})
unfolding declared_ids unique
validate_report report output evidence = do
  allowed ← declared_ids output
  require (unique (section_ids report)) (value_error "report section ids must be unique")
  require (all (λ id. any (is_text id) allowed) (section_ids report))
      (value_error "report contains a section not declared by the template")
  require (all (contains (package_ids evidence)) (references report.sections))
      (value_error "report references evidence outside the package")

-- The events that no item cites.
unfoldable pub dropped_events : List String → List Evidence → List Evidence
dropped_events cited evidence =
    keep (λ e. e.evidence_type =ₜ "event" && not (contains cited e.evidence_id)) evidence

-- `ReportItem(...)` of a dropped event.
unfoldable pub event_item : Evidence → Outcome ReportItem
unfolding text_take within
event_item e = do
  let text = text_take 2000 ("보고서 본문에 실리지 않은 관측 이벤트: " <> e.summary)
  require (within 1 2000 text && within 1 300 e.evidence_id) (validation_error "ReportItem")
  ok (record {
    text = text;
    label = some "미반영 이벤트";
    evidence_refs = e.evidence_id ∷ [];
    counter_evidence_refs = [];
  })

-- The items go to the first section of this id, or to a new one behind the others.
unfoldable pub file_items : String → List ReportItem → List ReportSection → List ReportSection
file_items id items [] = record { id = id; body = none; items = items } ∷ []
file_items id items (section ∷ sections) =
    let rest = file_items id items sections in
    if section.id =ₜ id
    then (record section { items = section.items ++ items }) ∷ sections
    else section ∷ rest

abbrev pub limitations : String
limitations = "limitations"

unfoldable pub file_dropped : Report → Dict Value → List Evidence → Outcome Report
unfolding declares event_item file_items
file_dropped report output dropped = do
  declared ← declares limitations output
  if not declared
      then ok report
      else (traverse event_item (take 20 dropped) >>= λ items.
          ok (record report { sections = file_items limitations items report.sections }))

-- `_reconcile_evidence(report, output, package)`
unfoldable pub reconcile_evidence : Report → Dict Value → List Evidence → Outcome Report
unfolding dropped_events file_dropped
reconcile_evidence report output evidence =
    let dropped = dropped_events (references report.sections) evidence in
    if is_empty dropped then ok report else file_dropped report output dropped

-- What `write_report` makes of the model's draft.
unfoldable pub checked_report : Report → Dict Value → List Evidence → Outcome Report
unfolding validate_report reconcile_evidence
checked_report draft output evidence = do
  validate_report draft output evidence
  reconcile_evidence draft output evidence
