-- ===== src/State/Ceiling.antt =====
-- `bound_what_only_grows` keeps what only grows within its ceilings, once and for all.
use aiops_rca_orchestrator.Common.{
  ℕ, ◌≤◌, ◌≡◌, refl, sym, ap, subst, ◌∙◌, Bool, true, false, not, ◌||◌, String, List, [], ◌∷◌, ◌++◌,
  ltb, ◌=ₜ◌, length, take, keep, length-append, length-take, length-keep, arith, inl, inr,
  Bool-cases,
}
use aiops_rca_orchestrator.Common.Laws.{keep-append}
use aiops_rca_orchestrator.Common.Outcome.{ok, required}
use aiops_rca_orchestrator.Schema.Investigation.{UnknownItem}
use aiops_rca_orchestrator.State.Defs.{InvestigationState}
use aiops_rca_orchestrator.State.Trim.{
  full_lists, findings, is_notice, notice, over_unknowns, over_facts, bound_what_only_grows,
}
use aiops_rca_orchestrator.State.Validity.{validate_graph_invariants, rebuild}

notice-is_notice : (full : List String) → is_notice (notice full) ≡ true
unfolding is_notice notice ◌=ₜ◌
notice-is_notice full = refl

-- A notice behind a list is no finding.
findings-noticed :
    (unknowns : List UnknownItem) (full : List String)
    → length (findings (unknowns ++ notice full ∷ [])) ≤ length unknowns
unfolding findings
findings-noticed unknowns full =
    let split = keep-append (λ item. not (is_notice item)) unknowns (notice full ∷ []) in
    ground (
      arith,
      notice-is_notice full,
      length-keep (λ item. not (is_notice item)) unknowns,
      length-append (keep (λ item. not (is_notice item)) unknowns) [],
    )

pub validate-eq :
    (s : InvestigationState) {t : InvestigationState} → validate_graph_invariants s ≡ ok t → s ≡ t
unfolding validate_graph_invariants
validate-eq s h = ground arith

still :
    (s : InvestigationState)
    → (over_unknowns s || over_facts s) ≡ false
    → bound_what_only_grows s ≡ s
unfolding bound_what_only_grows
still s within = rw within

length-noticed {ℓ} : {A : Type ℓ} (xs : List A) (x : A) → length (take 99 xs ++ x ∷ []) ≤ 100
length-noticed xs x = omega (arith, length-append (take 99 xs) (x ∷ []), length-take 99 xs)

length-cut {ℓ} : {A : Type ℓ} (n : ℕ) (xs : List A) → length (take n xs) ≤ n
length-cut n xs = omega (arith, length-take n xs)

not_under : (m n : ℕ) → n ≤ m → ltb m n ≡ false
not_under m n h = ground arith

neither : (a b : Bool) → a ≡ false → b ≡ false → (a || b) ≡ false
neither a b h k = ground arith

module _ (s : InvestigationState) where
  abbrev over : Bool
  over = over_unknowns s || over_facts s

  abbrev full : List String
  full = full_lists (over_unknowns s) (over_facts s)

  bound-unknowns :
      over ≡ true
      → (bound_what_only_grows s).unknowns ≡ take 99 (findings s.unknowns) ++ notice full ∷ []
  unfolding bound_what_only_grows
  bound-unknowns h = rw h

  bound-known_facts : over ≡ true → (bound_what_only_grows s).known_facts ≡ take 100 s.known_facts
  unfolding bound_what_only_grows
  bound-known_facts h = rw h

  -- A state that holds more than it may comes out with at most 100 unknowns and at most 100 known
  -- facts, and its last unknown is the notice that says which of the two was full.
  pub bound-within :
      over ≡ true
      → (length (bound_what_only_grows s).unknowns ≤ 100)
        × (length (bound_what_only_grows s).known_facts ≤ 100)
        × (kept : List UnknownItem) × ((bound_what_only_grows s).unknowns
            ≡ kept ++ notice full ∷ [])
  bound-within h = (
    subst (λ l. length l ≤ 100) (sym (bound-unknowns h))
        (length-noticed (findings s.unknowns) (notice full)),
    subst (λ l. length l ≤ 100) (sym (bound-known_facts h)) (length-cut 100 s.known_facts),
    take 99 (findings s.unknowns),
    bound-unknowns h,
  )

  trimmed-not_over :
      over ≡ true
      → (over_unknowns (bound_what_only_grows s) || over_facts (bound_what_only_grows s)) ≡ false
  unfolding over_unknowns over_facts
  trimmed-not_over h =
      let noticed = findings-noticed (take 99 (findings s.unknowns)) full in
      let cut = length-cut 99 (findings s.unknowns) in
      neither _ _
        (not_under 99 _
          (subst (λ l. length (findings l) ≤ 99) (sym (bound-unknowns h)) (omega arith)))
        (not_under 100 _
          (subst (λ l. length l ≤ 100) (sym (bound-known_facts h)) (length-cut 100 s.known_facts)))

  -- Trimming a trimmed state changes nothing.
  pub bound-idempotent : bound_what_only_grows (bound_what_only_grows s) ≡ bound_what_only_grows s
  bound-idempotent = elim (Bool-cases over) [
    | inl h ↦ still (bound_what_only_grows s) (trimmed-not_over h)
    | inr within ↦ ap bound_what_only_grows (still s within)
  ]

rebuild-alike :
    (s t : InvestigationState)
    → bound_what_only_grows s ≡ bound_what_only_grows t
    → rebuild s ≡ rebuild t
unfolding rebuild
rebuild-alike s t h = rw h

-- A state that validates is validated again as it is.
pub rebuild-again : (s t : InvestigationState) → rebuild s ≡ ok t → rebuild t ≡ ok t
unfolding rebuild
rebuild-again s t h =
    let same : bound_what_only_grows s ≡ t = validate-eq _ (required _ _ _ h).1 in
    let twice : bound_what_only_grows t ≡ bound_what_only_grows s =
      ap bound_what_only_grows (sym same) ∙ bound-idempotent s in
    rebuild-alike t s twice ∙ h
