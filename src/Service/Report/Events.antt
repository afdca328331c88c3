-- ===== src/Service/Report/Events.antt =====
-- A report that `write_report` returns mentions every event.
use aiops_rca_orchestrator.Common.{
  ◌≤◌, ◌≡◌, refl, ap, subst, ◌∙◌, Bool, true, ◌||◌, String, List, [], ◌∷◌, all, take, take-of_le,
  is_empty, length, arith, inl, inr, Bool-cases,
}
use aiops_rca_orchestrator.Common.Laws.{all-contains_self}
use aiops_rca_orchestrator.Common.Dict.{Dict}
use aiops_rca_orchestrator.Common.Text.{contains}
use aiops_rca_orchestrator.Common.Value.{Value}
use aiops_rca_orchestrator.Common.Outcome.{ok, after, ok-injective, traverse}
use aiops_rca_orchestrator.Schema.Report.{Report, ReportSection, ReportItem}
use aiops_rca_orchestrator.Schema.Evidence.{Evidence}
use aiops_rca_orchestrator.Service.Sections.{declares}
use aiops_rca_orchestrator.Service.Report.{
  items_refs, references, package_ids, dropped_events, event_item, file_items, file_dropped,
  reconcile_evidence, limitations,
}
use aiops_rca_orchestrator.Service.Report.Laws.{references-file_items, traverse-refs}

empty-eq {ℓ} : {A : Type ℓ} (xs : List A) → is_empty xs ≡ true → xs ≡ []
empty-eq [] h = refl
empty-eq (x ∷ xs) h = absurd cc

-- Events whose ids are cited are not dropped.
dropped-none :
    (cited more : List String) (evidence : List Evidence)
    → ((t : String) → contains cited t ≡ true → contains more t ≡ true)
    → all (contains more) (package_ids (dropped_events cited evidence)) ≡ true
    → dropped_events more evidence ≡ []
unfolding dropped_events
dropped-none cited more [] wider filed = refl
dropped-none cited more (e ∷ evidence) wider filed =
    let rest = dropped-none cited more evidence wider in
    let kept = wider e.evidence_id in ground arith

all-wider :
    (known more ts : List String)
    → ((t : String) → contains known t ≡ true → contains more t ≡ true)
    → all (contains known) ts ≡ true
    → all (contains more) ts ≡ true
all-wider known more [] wider h = refl
all-wider known more (t ∷ ts) wider h =
    let rest = all-wider known more ts wider in let one = wider t in ground arith

or_first : (a b c : Bool) → c ≡ (a || b) → a ≡ true → c ≡ true
or_first a b c h k = ground arith

or_second : (a b c : Bool) → c ≡ (a || b) → b ≡ true → c ≡ true
or_second a b c h k = ground arith

dropped-filed :
    (sections : List ReportSection) (items : List ReportItem) (evidence : List Evidence)
    → items_refs items ≡ package_ids (dropped_events (references sections) evidence)
    → dropped_events (references (file_items limitations items sections)) evidence ≡ []
dropped-filed sections items evidence h =
    let cited = references sections in
    let more = references (file_items limitations items sections) in
    let dropped = package_ids (dropped_events cited evidence) in
    let both_kinds : (t : String) → contains more t ≡ (contains cited t || contains dropped t) =
      λ t.
        references-file_items limitations t items sections
        ∙ ap (λ l. contains cited t || contains l t) h in
    dropped-none cited more evidence
      (λ t. or_first (contains cited t) (contains dropped t) (contains more t) (both_kinds t))
      (all-wider dropped more dropped
        (λ t. or_second (contains cited t) (contains dropped t) (contains more t) (both_kinds t))
        (all-contains_self dropped))

-- Every event that the report did not mention is cited by the one that goes out, if the template
-- declares a section for the limitations and at most 20 events were not mentioned.
pub reconcile_evidence-cites :
    (report r : Report) (output : Dict Value) (evidence : List Evidence)
    → declares limitations output ≡ ok true
    → length (dropped_events (references report.sections) evidence) ≤ 20
    → reconcile_evidence report output evidence ≡ ok r
    → dropped_events (references r.sections) evidence ≡ []
unfolding reconcile_evidence file_dropped
reconcile_evidence-cites report r output evidence declared few h =
    elim (Bool-cases (is_empty (dropped_events (references report.sections) evidence))) [
      | inl all_cited ↦
          subst (λ r. dropped_events (references r.sections) evidence ≡ [])
            (ok-injective report r (rw all_cited at h))
            (empty-eq (dropped_events (references report.sections) evidence) all_cited)
      | inr some_dropped ↦
          after (λ r. dropped_events (references r.sections) evidence ≡ [])
            (traverse event_item (take 20 (dropped_events (references report.sections) evidence))) _
            (λ items made whole.
              subst (λ r. dropped_events (references r.sections) evidence ≡ [])
                (ok-injective _ r whole)
                (dropped-filed report.sections items evidence
                  (traverse-refs _ items made ∙ ap package_ids (take-of_le 20 _ few))))
            (rw (some_dropped, declared) at h)
    ]
