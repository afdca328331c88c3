-- ===== src/Checks/References/Laws.antt =====
-- A report is blamed for its references exactly where one of them is outside the package, so that a
-- report the writer has stored never is.
use aiops_rca_orchestrator.Common.{
  ◌≡◌, refl, sym, ap, subst, ◌∙◌, true, ◌&&◌, String, List, [], ◌∷◌, ◌++◌, all, is_empty, ◌=ₜ◌,
  if◌then◌else◌, arith,
}
use aiops_rca_orchestrator.Common.Dict.{Dict}
use aiops_rca_orchestrator.Common.Laws.{all-append}
use aiops_rca_orchestrator.Common.Text.{contains}
use aiops_rca_orchestrator.Common.Value.{Value, str, items, entries}
use aiops_rca_orchestrator.Common.Outcome.{Outcome, ok, ◌>>=◌}
use aiops_rca_orchestrator.Schema.Report.{Report, ReportSection, ReportItem}
use aiops_rca_orchestrator.Schema.Evidence.{Evidence}
use aiops_rca_orchestrator.Nodes.Writer.{Finding}
use aiops_rca_orchestrator.Service.Sections.{hashed}
use aiops_rca_orchestrator.Service.Report.{
  item_refs, items_refs, references, package_ids, checked_report,
}
use aiops_rca_orchestrator.Service.Report.Valid.{checked_report-valid, validate_report-cites}
use aiops_rca_orchestrator.Checks.Documents.{Reader, Document, sections_of, iterated, mappings}
use aiops_rca_orchestrator.Checks.Dumped.{
  text_items, item_fields, item_values, section_values, report_document,
}
use aiops_rca_orchestrator.Checks.References.{
  known_ids, absent, refs_check, field_check, item_check, items_check, sections_check,
  evidence_refs_resolve,
}

-- A check that returns, and finds nothing exactly where the references are all known.
abbrev Judges : List String → List String → Outcome (List Finding) → Type 0
Judges known refs m = (fs : List Finding) × (m ≡ ok fs) × (is_empty fs ≡ all (contains known) refs)

is_empty-append : (xs ys : List Finding) → is_empty (xs ++ ys) ≡ (is_empty xs && is_empty ys)
is_empty-append [] ys = refl
is_empty-append (x ∷ xs) ys = refl

-- Two checks, one after the other.
Judges-both :
    (known ps qs : List String) (m n : Outcome (List Finding))
    → Judges known ps m
    → Judges known qs n
    → Judges known (ps ++ qs) (m >>= λ a. n >>= λ b. ok (a ++ b))
Judges-both known ps qs m n (a, ma, ea) (b, nb, eb) = (
  a ++ b,
  rw (ma, nb) refl,
  is_empty-append a b ∙ rw (ea, eb) (sym (all-append (contains known) ps qs)),
)

judged_ref :
    (known : List String) (f : Finding) (ref : String) (refs : List String) (rest : List Finding)
    → is_empty rest ≡ all (contains known) refs
    → is_empty (if contains known ref then rest else f ∷ rest)
      ≡ (contains known ref && all (contains known) refs)
judged_ref known f ref refs rest h = ground arith

refs_check-Judges :
    (r : Reader) (known : List String) (section name : String) (refs : List String)
    → Judges known refs (refs_check r known section name (items (text_items refs)))
unfolding refs_check hashed
refs_check-Judges r known section name [] = ([], refl, refl)
refs_check-Judges r known section name (ref ∷ refs) =
    let (rest, ran, e) = refs_check-Judges r known section name refs in
    let f = absent r section name (str ref) in
    (if contains known ref then rest else f ∷ rest, rw ran refl, judged_ref known f ref refs rest e)

item_check-Judges :
    (r : Reader) (known : List String) (section : String) (item : ReportItem)
    → Judges known (item_refs item) (item_check r known section (entries (item_fields item)))
unfolding item_check field_check iterated ◌=ₜ◌
item_check-Judges r known section item =
    Judges-both known item.evidence_refs item.counter_evidence_refs _ _
      (refs_check-Judges r known section "evidence_refs" item.evidence_refs)
      (refs_check-Judges r known section "counter_evidence_refs" item.counter_evidence_refs)

items_check-Judges :
    (r : Reader) (known : List String) (section : String) (its : List ReportItem)
    → Judges known (items_refs its) (items_check r known section (items (item_values its)))
unfolding items_check
items_check-Judges r known section [] = ([], refl, refl)
items_check-Judges r known section (item ∷ its) =
    Judges-both known (item_refs item) (items_refs its) _ _ (item_check-Judges r known section item)
      (items_check-Judges r known section its)

sections_check-Judges :
    (r : Reader) (known : List String) (sections : List ReportSection)
    → Judges known
        (references sections)
        (sections_check r known (mappings (items (section_values sections))))
unfolding sections_check iterated ◌=ₜ◌
sections_check-Judges r known [] = ([], refl, refl)
sections_check-Judges r known (s ∷ ss) =
    Judges-both known (items_refs s.items) (references ss) _ _
      (items_check-Judges r known _ s.items) (sections_check-Judges r known ss)

report-Judges :
    (r : Reader) (pack : Document) (report : Report)
    → Judges
        (known_ids pack)
        (references report.sections)
        (evidence_refs_resolve r pack (report_document report))
unfolding evidence_refs_resolve sections_of report_document ◌=ₜ◌
report-Judges r pack report = sections_check-Judges r (known_ids pack) report.sections

-- The check of the references runs on every report, and finds nothing exactly where each reference
-- of the report is the id of an item of the package.
pub evidence_refs_resolve_iff :
    (r : Reader) (pack : Document) (report : Report)
    → (fs : List Finding) × (evidence_refs_resolve r pack (report_document report) ≡ ok fs)
      × (is_empty fs ≡ all (contains (known_ids pack)) (references report.sections))
evidence_refs_resolve_iff r pack report = report-Judges r pack report

only_empty : (fs : List Finding) → is_empty fs ≡ true → fs ≡ []
only_empty [] h = refl
only_empty (f ∷ fs) h = absurd (cc)

-- If the package's document holds the ids of the package's evidence, then a report that the writer
-- returned is never blamed for a reference.
pub checked_report-resolves :
    (r : Reader) (pack : Document) (draft report : Report) (output : Dict Value)
    (evidence : List Evidence)
    → known_ids pack ≡ package_ids evidence
    → checked_report draft output evidence ≡ ok report
    → evidence_refs_resolve r pack (report_document report) ≡ ok []
checked_report-resolves r pack draft report output evidence same written =
    let cites =
      validate_report-cites report output evidence
        (checked_report-valid draft report output evidence written) in
    let (fs, ran, e) = evidence_refs_resolve_iff r pack report in
    let none_found =
      e ∙ subst (λ ids. all (contains ids) (references report.sections) ≡ true) (sym same) cites in
    ran ∙ ap ok (only_empty fs none_found)
