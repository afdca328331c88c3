-- ===== src/Templates/Select/Laws.antt =====
-- The template of a run is an enabled one, the one asked for wherever there is one.
use aiops_rca_orchestrator.Common.{
  ◌≡◌, refl, subst, true, ◌⊎◌, inl, inr, Option, none, some, String, List, [], ◌∷◌, ◌=ₜ◌, arith,
  Bool-cases, text_eq_iff,
}
use aiops_rca_orchestrator.Common.Outcome.{ok, after, ok-injective}
use aiops_rca_orchestrator.Schema.Investigation.{UnknownItem}
use aiops_rca_orchestrator.Templates.Select.{
  ReportTemplate, fall_back, enabled_template, fallback_id, not_in_catalog, Selected,
  select_template,
}

some-injective {ℓ} : {A : Type ℓ} (a b : A) → some a ≡ some b → a ≡ b
some-injective a b h = cc

-- A template of the list that is enabled and has this id.
unfoldable pub Offers : String → List ReportTemplate → ReportTemplate → Type 0
Offers id [] t = ⊥
Offers id (s ∷ ts) t = ((s ≡ t) × (t.enabled ≡ true) × (t.template_id ≡ id)) ⊎ Offers id ts t

enabled_template-Offers :
    (id : String) (ts : List ReportTemplate) {t : ReportTemplate}
    → enabled_template id ts ≡ some t
    → Offers id ts t
unfolding enabled_template Offers
enabled_template-Offers id [] {t} h = absurd (cc)
enabled_template-Offers id (s ∷ ts) {t} h = elim (Bool-cases s.enabled) [
  | inr shut ↦ inr (enabled_template-Offers id ts (rw shut at h))
  | inl open_one ↦ elim (Bool-cases (s.template_id =ₜ id)) [
    | inl same ↦
        let e : s ≡ t = ground arith in
        inl (
          e,
          subst (λ x. x.enabled ≡ true) e open_one,
          subst (λ x. x.template_id ≡ id) e ((text_eq_iff s.template_id id).0 same),
        )
    | inr other ↦ inr (enabled_template-Offers id ts (rw (open_one, other) at h))
  ]
]

-- What `select_template` chose: an enabled template of the list under the id asked for and nothing
-- to tell, or, where there is none, the fallback and an unknown that says so.
unfoldable pub Chosen : String → List ReportTemplate → Selected → Type 0
Chosen id ts choice =
    (Offers id ts choice.0 × (choice.1 ≡ none))
    ⊎ ((enabled_template id ts ≡ none)
        × Offers fallback_id ts choice.0
        × ((unknown : UnknownItem) × (choice.1 ≡ some unknown)))

fall_back-Chosen :
    (id : String) (ts : List ReportTemplate) (o : Option ReportTemplate) {choice : Selected}
    → enabled_template id ts ≡ none
    → enabled_template fallback_id ts ≡ o
    → fall_back id o ≡ ok choice
    → Chosen id ts choice
unfolding fall_back Chosen
fall_back-Chosen id ts none {choice} none_found e h = absurd (cc)
fall_back-Chosen id ts (some t) {choice} none_found e h =
    after (Chosen id ts) (not_in_catalog id t) _
      (λ unknown a b.
        subst (Chosen id ts) (ok-injective (t, some unknown) choice b)
          (inr (none_found, enabled_template-Offers fallback_id ts e, (unknown, refl))))
      h

selected_cases :
    (id : String) (ts : List ReportTemplate) (o : Option ReportTemplate) {choice : Selected}
    → enabled_template id ts ≡ o
    → elim o [ none ↦ fall_back id (enabled_template fallback_id ts) | some t ↦ ok (t, none) ]
      ≡ ok choice
    → Chosen id ts choice
unfolding Chosen
selected_cases id ts none {choice} e h =
    fall_back-Chosen id ts (enabled_template fallback_id ts) e refl h
selected_cases id ts (some t) {choice} e h =
    subst (Chosen id ts) (ok-injective (t, none) choice h)
      (inl (enabled_template-Offers id ts e, refl))

-- Whatever `select_template` returns is an enabled template of the list: the one asked for, with no
-- unknown, or `incident_rca` where no enabled template has the id asked for, and then always with an
-- unknown that says so.
pub select_template-Chosen :
    (id : String) (ts : List ReportTemplate) {choice : Selected}
    → select_template id ts ≡ ok choice
    → Chosen id ts choice
unfolding select_template
select_template-Chosen id ts = selected_cases id ts (enabled_template id ts) refl
