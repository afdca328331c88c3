-- ===== src/Templates/Contract/Laws.antt =====
-- The template check finds what it looks for: a template with no section, or two with one id.
use aiops_rca_orchestrator.Common.{
  ◌≡◌, refl, ap, false, ◌↔◌, ◌≢◌, inl, inr, String, List, [], ◌∷◌, ◌=ₜ◌, arith, Bool-cases,
}
use aiops_rca_orchestrator.Common.Dict.{Dict}
use aiops_rca_orchestrator.Common.Text.{contains}
use aiops_rca_orchestrator.Common.Value.{Value, Runtime}
use aiops_rca_orchestrator.Common.Outcome.{ok}
use aiops_rca_orchestrator.Templates.Contract.{
  SectionContract, parse_sections, duplicates, validate_template,
}

-- No section of the list has this id.
pub Absent : String → List SectionContract → Type 0
Absent id [] = Unit
Absent id (s ∷ ss) = ((s.id =ₜ id) ≡ false) × Absent id ss

-- No two sections of the list have one id.
pub Distinct : List SectionContract → Type 0
Distinct [] = Unit
Distinct (s ∷ ss) = Absent s.id ss × Distinct ss

-- None of the ids is the id of a section.
New : List String → List SectionContract → Type 0
New ids [] = Unit
New ids (s ∷ ss) = (contains ids s.id ≡ false) × New ids ss

New-cons :
    (id : String) (ids : List String) (ss : List SectionContract)
    → New ids ss
    → Absent id ss
    → New (id ∷ ids) ss
unfolding New Absent
New-cons id ids [] n a = tt
New-cons id ids (s ∷ ss) n a = (rw a.0 n.0, New-cons id ids ss n.1 a.1)

New-tail :
    (id : String) (ids : List String) (ss : List SectionContract)
    → New (id ∷ ids) ss
    → New ids ss × Absent id ss
unfolding New Absent
New-tail id ids [] n = (tt, tt)
New-tail id ids (s ∷ ss) n =
    let rest = New-tail id ids ss n.1 in
    ((ground (arith, n.0), rest.0), (ground (arith, n.0), rest.1))

New-nil : (ss : List SectionContract) → New [] ss
unfolding New
New-nil [] = tt
New-nil (s ∷ ss) = (refl, New-nil ss)

duplicates_complete :
    (seen : List String) (ss : List SectionContract)
    → New seen ss
    → Distinct ss
    → duplicates seen ss ≡ []
unfolding duplicates Distinct New
duplicates_complete seen [] n d = refl
duplicates_complete seen (s ∷ ss) n d =
    rw n.0 (duplicates_complete (s.id ∷ seen) ss (New-cons s.id seen ss n.1 d.0) d.1)

duplicates_sound :
    (seen : List String) (ss : List SectionContract)
    → duplicates seen ss ≡ []
    → New seen ss × Distinct ss
unfolding duplicates Distinct New
duplicates_sound seen [] h = (tt, tt)
duplicates_sound seen (s ∷ ss) h = elim (Bool-cases (contains seen s.id)) [
  | inl twice ↦ absurd (ground arith)
  | inr once ↦
      let rest = duplicates_sound (s.id ∷ seen) ss (ground arith) in
      let apart = New-tail s.id seen ss rest.0 in ((once, apart.0), (apart.1, rest.1))
]

-- The sections that a template may have: at least one, and no two with one id.
pub Sound : List SectionContract → Type 0
Sound ss = (ss ≢ []) × Distinct ss

-- If the sections of the template can be read, then the list of its problems is empty exactly where
-- there is at least one section and no two sections have one id.
pub validate_template_iff :
    (rt : Runtime) (output : Dict Value) (ss : List SectionContract)
    → parse_sections rt output ≡ ok ss
    → (validate_template rt output ≡ ok []) ↔ Sound ss
unfolding validate_template Sound
validate_template_iff rt output [] h = (λ k. absurd (ground arith), λ s. absurd (s.0 refl))
validate_template_iff rt output (s ∷ ss) h = (
  λ k. (λ e. absurd (cc), (duplicates_sound [] (s ∷ ss) (ground arith)).1),
  λ d. rw h (ap ok (duplicates_complete [] (s ∷ ss) (New-nil (s ∷ ss)) d.1)),
)
