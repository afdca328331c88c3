-- ===== src/Checks/Limits/Laws.antt =====
-- The sections that a template requires are held against those of the report that hold a text.
use aiops_rca_orchestrator.Common.{
  ◌≡◌, ◌↔◌, refl, sym, ◌∙◌, Bool, true, false, not, ◌&&◌, ◌||◌, ◌⊎◌, inl, inr, String, List, [],
  ◌∷◌, map, keep, any, is_empty, ◌=ₜ◌, arith, Bool-cases,
}
use aiops_rca_orchestrator.Common.Laws.{text_eq_sym}
use aiops_rca_orchestrator.Common.Text.{contains}
use aiops_rca_orchestrator.Common.Value.{list, Items, items, get, truthy}
use aiops_rca_orchestrator.Nodes.Writer.{Finding}
use aiops_rca_orchestrator.Checks.Documents.{
  Reader, Document, mappings, sections_of, section_id, texts,
}
use aiops_rca_orchestrator.Checks.Limits.{
  stated, limitations, is_filled, filled_ids, is_missing, unanswered,
  required_sections_are_answered,
}

cons_not_nil : (f : Finding) (fs : List Finding) → f ∷ fs ≡ [] → ⊥
cons_not_nil f fs h = cc

-- Some section of this id holds a text that is not empty.
pub Filled : Reader → List Document → String → Type 0
Filled r [] id = ⊥
Filled r (s ∷ ss) id =
    (((section_id r s =ₜ id) ≡ true) × (any (λ t. not (t =ₜ "")) (texts s) ≡ true)) ⊎ Filled r ss id

-- Each of these sections of a template is optional, is the one for the limitations, or is filled in
-- the report.
pub Answered : Reader → (report declared : List Document) → Type 0
Answered r report [] = Unit {0}
Answered r report (d ∷ ds) =
    ((truthy (get "required" d) ≡ false)
      ⊎ ((section_id r d =ₜ "limitations") ≡ true)
      ⊎ Filled r report (section_id r d))
    × Answered r report ds

filled_ids-cons :
    (r : Reader) (s : Document) (ss : List Document) (id : String)
    → contains (filled_ids r (s ∷ ss)) id ≡ (
        (any (λ t. not (t =ₜ "")) (texts s) && (section_id r s =ₜ id))
        || contains (filled_ids r ss) id)
unfolding filled_ids is_filled
filled_ids-cons r s ss id = elim (Bool-cases (any (λ t. not (t =ₜ "")) (texts s))) [
  | inl filled ↦ rw (filled, text_eq_sym id (section_id r s)) refl
  | inr blank ↦ rw blank refl
]

first_or : (a b c : Bool) → ((a && b) || c) ≡ true → ((b ≡ true) × (a ≡ true)) ⊎ (c ≡ true)
first_or a b c h = ground arith

filled_ids-Filled :
    (r : Reader) (ss : List Document) (id : String)
    → contains (filled_ids r ss) id ≡ true
    → Filled r ss id
unfolding Filled filled_ids
filled_ids-Filled r [] id h = absurd (cc)
filled_ids-Filled r (s ∷ ss) id h =
    elim (first_or (any (λ t. not (t =ₜ "")) (texts s)) (section_id r s =ₜ id)
      (contains (filled_ids r ss) id) (sym (filled_ids-cons r s ss id) ∙ h)) [
        | inl here ↦ inl here
        | inr later ↦ inr (filled_ids-Filled r ss id later)
      ]

Filled-filled_ids :
    (r : Reader) (ss : List Document) (id : String)
    → Filled r ss id
    → contains (filled_ids r ss) id ≡ true
unfolding Filled
Filled-filled_ids r [] id f = absurd f
Filled-filled_ids r (s ∷ ss) id (inl (same, filled)) =
    filled_ids-cons r s ss id ∙ rw (same, filled) refl
Filled-filled_ids r (s ∷ ss) id (inr later) =
    let rest = Filled-filled_ids r ss id later in filled_ids-cons r s ss id ∙ ground arith

-- What excuses a declared section.
abbrev Excused : Reader → List Document → Document → Type 0
Excused r report d =
    (truthy (get "required" d) ≡ false)
    ⊎ ((section_id r d =ₜ "limitations") ≡ true)
    ⊎ Filled r report (section_id r d)

excuse_of : (a b c : Bool) → (a && not (b || c)) ≡ false → (a ≡ false) ⊎ (c ≡ true) ⊎ (b ≡ true)
excuse_of a b c h = ground arith

unmissed :
    (r : Reader) (report : List Document) (d : Document)
    → is_missing r (filled_ids r report) d ≡ false
    → Excused r report d
unfolding is_missing
unmissed r report d h = elim (excuse_of _ _ _ h) [
  | inl optional ↦ inl optional
  | inr (inl limits) ↦ inr (inl limits)
  | inr (inr filled) ↦ inr (inr (filled_ids-Filled r report (section_id r d) filled))
]

excused :
    (r : Reader) (report : List Document) (d : Document)
    → Excused r report d
    → is_missing r (filled_ids r report) d ≡ false
unfolding is_missing
excused r report d (inl optional) = rw optional refl
excused r report d (inr (inl limits)) = ground arith
excused r report d (inr (inr filled)) =
    let held = Filled-filled_ids r report (section_id r d) filled in ground arith

missing_of : Reader → (report declared : List Document) → List Finding
missing_of r report declared =
    map (unanswered r) (keep (is_missing r (filled_ids r report)) declared)

missing_of-Answered :
    (r : Reader) (report ds : List Document) → missing_of r report ds ≡ [] → Answered r report ds
unfolding Answered missing_of
missing_of-Answered r report [] h = tt
missing_of-Answered r report (d ∷ ds) h = elim (Bool-cases (is_missing r (filled_ids r report) d)) [
  | inl missing ↦ absurd (cons_not_nil _ _ (rw missing at h))
  | inr found ↦ (unmissed r report d found, missing_of-Answered r report ds (rw found at h))
]

Answered-missing_of :
    (r : Reader) (report ds : List Document) → Answered r report ds → missing_of r report ds ≡ []
unfolding Answered missing_of
Answered-missing_of r report [] a = refl
Answered-missing_of r report (d ∷ ds) (one, rest) =
    rw (excused r report d one) (Answered-missing_of r report ds rest)

required_sections-missing :
    (r : Reader) (report template : Document) (vs : Items)
    → get "sections" template ≡ list vs
    → is_empty (sections_of report) ≡ false
    → stated (limitations r report) ≡ false
    → required_sections_are_answered r report template
      ≡ missing_of r (sections_of report) (mappings (items vs))
unfolding required_sections_are_answered missing_of
required_sections-missing r report template vs declared some_section silent =
    rw (declared, some_section, silent) refl

-- Of a report that has sections and whose limitations state nothing: the check of the required
-- sections finds nothing exactly if each section that the template declares is optional, is the one
-- for the limitations, or has the id of a section of the report that holds a text.
pub required_sections_are_answered_iff :
    (r : Reader) (report template : Document) (vs : Items)
    → get "sections" template ≡ list vs
    → is_empty (sections_of report) ≡ false
    → stated (limitations r report) ≡ false
    → (required_sections_are_answered r report template ≡ [])
      ↔ Answered r (sections_of report) (mappings (items vs))
required_sections_are_answered_iff r report template vs declared some_section silent =
    let found = required_sections-missing r report template vs declared some_section silent in
    (
      λ h. missing_of-Answered r (sections_of report) (mappings (items vs)) (sym found ∙ h),
      λ a. found ∙ Answered-missing_of r (sections_of report) (mappings (items vs)) a,
    )
