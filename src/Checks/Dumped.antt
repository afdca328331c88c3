-- ===== src/Checks/Dumped.antt =====
-- The document that `ReportEvalNode` of graph/report_nodes.py has checked: `report.model_dump(...)` of
-- the report of schemas/report.py.
use aiops_rca_orchestrator.Common.{Option, none, some, String, List, [], ◌∷◌}
use aiops_rca_orchestrator.Common.Value.{
  Value, null, str, list, dict, Items, nil, cons, Fields, field, end,
}
use aiops_rca_orchestrator.Schema.Report.{Report, ReportSection, ReportItem}
use aiops_rca_orchestrator.Checks.Documents.{Document}

abbrev optional_text : Option String → Value
optional_text none = null
optional_text (some s) = str s

abbrev pub text_items : List String → Items
text_items [] = nil
text_items (s ∷ ss) = cons (str s) (text_items ss)

abbrev pub item_fields : ReportItem → Fields
item_fields item = field "text" (str item.text) (
    field "label" (optional_text item.label) (
      field "evidence_refs" (list (text_items item.evidence_refs))
        (field "counter_evidence_refs" (list (text_items item.counter_evidence_refs)) end)))

abbrev pub item_values : List ReportItem → Items
item_values [] = nil
item_values (item ∷ items) = cons (dict (item_fields item)) (item_values items)

abbrev pub section_fields : ReportSection → Fields
section_fields section = field "id" (str section.id) (
    field "body" (optional_text section.body)
      (field "items" (list (item_values section.items)) end))

abbrev pub section_values : List ReportSection → Items
section_values [] = nil
section_values (section ∷ sections) = cons (dict (section_fields section)) (section_values sections)

-- `report.model_dump(mode="json")`
unfoldable pub report_document : Report → Document
report_document report =
    ("schema_version", str "0.1.0")
    ∷ ("title", str report.title)
    ∷ ("sections", list (section_values report.sections))
    ∷ []
