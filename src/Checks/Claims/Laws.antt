-- ===== src/Checks/Claims/Laws.antt =====
-- A number that the cited evidence counts is never blamed.
use aiops_rca_orchestrator.Common.{
  ℕ, ◌≡◌, refl, sym, subst, ◌∙◌, true, ◌⊎◌, inl, inr, none, String, List, [], ◌∷◌, ◌++◌, arith,
}
use aiops_rca_orchestrator.Common.Dict.{Dict}
use aiops_rca_orchestrator.Common.Value.{Value, dict, fields, get, pos}
use aiops_rca_orchestrator.Common.Outcome.{ok, after, ok-injective}
use aiops_rca_orchestrator.Nodes.Writer.{Finding}
use aiops_rca_orchestrator.Checks.Documents.{Reader, Document, iterated}
use aiops_rca_orchestrator.Checks.Counts.{Quantity, holds, counted_quantities}
use aiops_rca_orchestrator.Checks.Counts.Laws.{Lies, counted_quantities-Lies, holds-append}
use aiops_rca_orchestrator.Checks.Claims.{
  without_commas, cited_items, grounds, judge_claims, judge_grounded, item_claims,
}

-- Some of these items carries a list of this length.
unfoldable pub Carries : ℕ → List Document → Type 0
Carries n [] = ⊥
Carries n (e ∷ es) = Lies n (dict (fields e)) ⊎ Carries n es

-- Each claim states the length of some list that these items carry, its own length for each claim.
unfoldable pub Grounded : Reader → List Document → List (String × String) → Type 0
Grounded r es [] = Unit {0}
Grounded r es (claim ∷ claims) =
    ((n : ℕ) × (r.parse (without_commas claim.0) ≡ ok (pos n)) × Carries n es)
    × Grounded r es claims

grounds-Carries :
    (r : Reader) (n : ℕ) (es : List Document) (qs : List Quantity)
    → Carries n es
    → grounds r es ≡ ok qs
    → holds qs (pos n) ≡ true
unfolding grounds Carries
grounds-Carries r n [] qs c h = absurd c
grounds-Carries r n (e ∷ es) qs c h =
    let P : List Quantity → Type 0 = λ q. holds q (pos n) ≡ true in
    after P (counted_quantities r none (dict (fields e))) _
      (λ a found. after P (grounds r es) _ (λ b rest both.
        subst P (ok-injective (a ++ b) qs both) (elim c [
          | inl found_here ↦ ground (
            arith,
            holds-append a b (pos n),
            counted_quantities-Lies r none n (dict (fields e)) found_here found,
          )
          | inr there ↦
              ground (arith, holds-append a b (pos n), grounds-Carries r n es b there rest)
        ])))
      h

judge_claims-Grounded :
    (r : Reader) (section : String) (es : List Document) (qs : List Quantity)
    (claims : List (String × String))
    → grounds r es ≡ ok qs
    → Grounded r es claims
    → judge_claims r section qs claims ≡ ok []
unfolding judge_claims Grounded
judge_claims-Grounded r section es qs [] g s = refl
judge_claims-Grounded r section es qs (claim ∷ claims) g ((n, stated, carried), rest) =
    rw
      (
        stated,
        judge_claims-Grounded r section es qs claims g rest,
        grounds-Carries r n es qs carried g,
      )
      refl

judge_grounded-Grounded :
    (r : Reader) (section : String) (es : List Document) (qs : List Quantity)
    (claims : List (String × String))
    → grounds r es ≡ ok qs
    → Grounded r es claims
    → judge_grounded r section claims qs ≡ ok []
judge_grounded-Grounded r section es [] claims g s = refl
judge_grounded-Grounded r section es (q ∷ qs) claims g s =
    judge_claims-Grounded r section es (q ∷ qs) claims g s

-- If each claim in the text of an item states the length of a list that lies somewhere in the
-- evidence that the item cites, each claim that of its own list, then the item is not blamed,
-- wherever the check returns.
pub item_claims-Carries :
    (r : Reader) (known : Dict Document) (section : String) (item : Document)
    (claims : List (String × String)) (refs : List Value) (es : List Document) {fs : List Finding}
    → iterated r (get "evidence_refs" item) ≡ ok refs
    → cited_items known refs ≡ ok es
    → Grounded r es claims
    → item_claims r known section item claims ≡ ok fs
    → fs ≡ []
unfolding item_claims
item_claims-Carries r known section item [] refs es {fs} i c s h = sym (ok-injective [] fs h)
item_claims-Carries r known section item (claim ∷ claims) refs es {fs} i c s h =
    let P : List Finding → Type 0 = λ f. f ≡ [] in
    after P (iterated r (get "evidence_refs" item)) _
      (λ refs2 i2. after P (cited_items known refs2) _ (λ es2 c2.
        after P (grounds r es2) _ (λ qs g judged.
          let read =
            subst (λ x. cited_items known x ≡ ok es) (ok-injective refs refs2 (sym i ∙ i2)) c in
          let held =
            subst (λ x. Grounded r x (claim ∷ claims)) (ok-injective es es2 (sym read ∙ c2)) s in
          sym (
            ok-injective [] fs
              (sym (judge_grounded-Grounded r section es2 qs (claim ∷ claims) g held) ∙ judged)))))
      h
