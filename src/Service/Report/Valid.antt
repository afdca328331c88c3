-- ===== src/Service/Report/Valid.antt =====
-- A report that `write_report` returns is valid.
use aiops_rca_orchestrator.Common.{
  ◌≡◌, refl, sym, ap, subst, ◌∙◌, Bool, true, ◌&&◌, String, List, [], ◌∷◌, ◌++◌, any, all, take,
  ◌=ₜ◌, is_empty, arith, inl, inr, Bool-cases,
}
use aiops_rca_orchestrator.Common.Laws.{all-append}
use aiops_rca_orchestrator.Common.Dict.{Dict, lookup}
use aiops_rca_orchestrator.Common.Text.{contains}
use aiops_rca_orchestrator.Common.Value.{Value}
use aiops_rca_orchestrator.Common.Outcome.{ok, after, either, ok-injective, traverse}
use aiops_rca_orchestrator.Schema.Report.{Report, ReportSection, ReportItem}
use aiops_rca_orchestrator.Schema.Evidence.{Evidence}
use aiops_rca_orchestrator.State.Validity.{unique}
use aiops_rca_orchestrator.Service.Sections.{is_text, declared_ids, declares, hashed_id, members}
use aiops_rca_orchestrator.Service.Report.{
  items_refs, item_refs, references, package_ids, validate_report, dropped_events, event_item,
  file_items, file_dropped, reconcile_evidence, checked_report, limitations,
}
use aiops_rca_orchestrator.Service.Report.Laws.{
  ids, file_items-ids, unique-snoc, traverse-refs, finds-declared, dropped-known,
}

items_refs-all :
    (p : String → Bool) (xs ys : List ReportItem)
    → all p (items_refs (xs ++ ys)) ≡ (all p (items_refs xs) && all p (items_refs ys))
items_refs-all p [] ys = refl
items_refs-all p (x ∷ xs) ys = ground (
  arith,
  items_refs-all p xs ys,
  all-append p (item_refs x) (items_refs (xs ++ ys)),
  all-append p (item_refs x) (items_refs xs),
)

file_items-all :
    (p : String → Bool) (id : String) (items : List ReportItem) (sections : List ReportSection)
    → all p (references (file_items id items sections))
      ≡ (all p (references sections) && all p (items_refs items))
unfolding file_items
file_items-all p id items [] = ground (arith, all-append p (items_refs items) [])
file_items-all p id items (s ∷ sections) = elim (Bool-cases (s.id =ₜ id)) [
  | inl here ↦ ground (
    arith,
    items_refs-all p s.items items,
    all-append p (items_refs (s.items ++ items)) (references sections),
    all-append p (items_refs s.items) (references sections),
  )
  | inr further ↦ ground (
    arith,
    file_items-all p id items sections,
    all-append p (items_refs s.items) (references (file_items id items sections)),
    all-append p (items_refs s.items) (references sections),
  )
]

-- What `_validate_report` asks, of a template that declares these ids.
abbrev Valid : List Value → List Evidence → List ReportSection → Type 0
Valid allowed evidence sections =
    (unique (ids sections) ≡ true)
    × (all (λ id. any (is_text id) allowed) (ids sections) ≡ true)
    × (all (contains (package_ids evidence)) (references sections) ≡ true)

validate-Valid :
    (report : Report) (output : Dict Value) (evidence : List Evidence) (u : Unit {0})
    → validate_report report output evidence ≡ ok u
    → (allowed : List Value) × (declared_ids output ≡ ok allowed)
      × Valid allowed evidence report.sections
unfolding validate_report ids
validate-Valid report output evidence u h =
    after
      (λ _.
        (allowed : List Value) × (declared_ids output ≡ ok allowed)
        × Valid allowed evidence report.sections)
      (declared_ids output) _ (λ allowed read rest. (allowed, read, ground arith)) h

Valid-validate :
    (report : Report) (output : Dict Value) (evidence : List Evidence) (allowed : List Value)
    → declared_ids output ≡ ok allowed
    → Valid allowed evidence report.sections
    → validate_report report output evidence ≡ ok tt
unfolding validate_report ids
Valid-validate report output evidence allowed read (distinct, known, cited) =
    rw (read, distinct, known, cited)

both : (a b : Bool) → a ≡ true → b ≡ true → (a && b) ≡ true
both a b h k = ground arith

file_items-Valid :
    (allowed : List Value) (evidence : List Evidence) (items : List ReportItem)
    (sections : List ReportSection)
    → any (is_text limitations) allowed ≡ true
    → all (contains (package_ids evidence)) (items_refs items) ≡ true
    → Valid allowed evidence sections
    → Valid allowed evidence (file_items limitations items sections)
file_items-Valid allowed evidence items sections declared held (distinct, known, cited) =
    let named = file_items-ids limitations items sections in
    elim (Bool-cases (contains (ids sections) limitations)) [
      | inl there ↦
          let same : ids (file_items limitations items sections) ≡ ids sections =
            (rw there at named) in
          (
            subst (λ l. unique l ≡ true) (sym same) distinct,
            subst (λ l. all (λ id. any (is_text id) allowed) l ≡ true) (sym same) known,
            file_items-all _ limitations items sections ∙ both _ _ cited held,
          )
      | inr absent ↦
          let longer : ids (file_items limitations items sections)
              ≡ ids sections ++ limitations ∷ [] =
            (rw absent at named) in
          (
            subst (λ l. unique l ≡ true) (sym longer)
                (unique-snoc (ids sections) limitations distinct absent),
            subst (λ l. all (λ id. any (is_text id) allowed) l ≡ true) (sym longer)
                (all-append _ (ids sections) (limitations ∷ [])
                  ∙ both _ _ known (both _ _ declared refl)),
            file_items-all _ limitations items sections ∙ both _ _ cited held,
          )
    ]

declares-declared :
    (output : Dict Value) (allowed : List Value)
    → declares limitations output ≡ ok true
    → declared_ids output ≡ ok allowed
    → any (is_text limitations) allowed ≡ true
unfolding declares declared_ids
declares-declared output allowed h k =
    after (λ _. any (is_text limitations) allowed ≡ true) (members (lookup "sections" output)) _
      (λ vs one found.
        after (λ allowed. any (is_text limitations) allowed ≡ true)
          (members (lookup "sections" output)) _
          (λ ws two read. finds-declared limitations vs allowed found (
            subst (λ l. traverse hashed_id l ≡ ok allowed) (ok-injective ws vs (sym two ∙ one))
              read))
          k)
      h

file_dropped-Valid :
    (report r : Report) (output : Dict Value) (evidence : List Evidence) (allowed : List Value)
    (cited : List String)
    → declared_ids output ≡ ok allowed
    → Valid allowed evidence report.sections
    → file_dropped report output (dropped_events cited evidence) ≡ ok r
    → Valid allowed evidence r.sections
unfolding file_dropped
file_dropped-Valid report r output evidence allowed cited read valid h =
    after (λ r. Valid allowed evidence r.sections) (declares limitations output) _
      (λ declared found rest. elim (Bool-cases declared) [
        | inl there ↦
            after (λ r. Valid allowed evidence r.sections)
              (traverse event_item (take 20 (dropped_events cited evidence))) _
              (λ items made whole.
                subst (λ r. Valid allowed evidence r.sections) (ok-injective _ r whole)
                  (file_items-Valid allowed evidence items report.sections
                    (declares-declared output allowed (found ∙ ap (λ b. ok b) there) read)
                    (subst (λ l. all (contains (package_ids evidence)) l ≡ true)
                      (sym (traverse-refs _ items made)) (dropped-known cited evidence 20))
                    valid))
              (rw there at rest)
        | inr absent ↦
            subst (λ r. Valid allowed evidence r.sections)
              (ok-injective report r (rw absent at rest)) valid
      ])
      h

-- If the model's draft is a valid report for the template and the evidence, and the report that
-- goes out is made of it, then that one is valid too: its section ids are unique and declared by
-- the template, and its references are to evidence of the package.
pub checked_report-valid :
    (draft r : Report) (output : Dict Value) (evidence : List Evidence)
    → checked_report draft output evidence ≡ ok r
    → validate_report r output evidence ≡ ok tt
unfolding checked_report reconcile_evidence
checked_report-valid draft r output evidence h =
    after (λ r. validate_report r output evidence ≡ ok tt) (validate_report draft output evidence) _
      (λ u passed.
        let (allowed, read, valid) = validate-Valid draft output evidence u passed in
        either (λ r. validate_report r output evidence ≡ ok tt)
          (is_empty (dropped_events (references draft.sections) evidence)) (ok draft) _
          (λ same.
            subst (λ r. validate_report r output evidence ≡ ok tt) (ok-injective draft r same)
              (Valid-validate draft output evidence allowed read valid))
          (λ filed. Valid-validate r output evidence allowed read (
            file_dropped-Valid draft r output evidence allowed (references draft.sections) read
              valid filed)))
      h

-- A report that passes the validation cites the package's evidence only.
pub validate_report-cites :
    (report : Report) (output : Dict Value) (evidence : List Evidence)
    → validate_report report output evidence ≡ ok tt
    → all (contains (package_ids evidence)) (references report.sections) ≡ true
validate_report-cites report output evidence h =
    let (allowed, read, valid) = validate-Valid report output evidence tt h in valid.2
