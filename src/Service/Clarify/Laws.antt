-- ===== src/Service/Clarify/Laws.antt =====
-- The lines that go back to the asker keep to the contract, and lead with what can be acted on.
use aiops_rca_orchestrator.Common.{
  ℕ, zero, suc, ◌≤◌, ◌≡◌, refl, ap, ◌∙◌, true, not, String, List, [], ◌∷◌, ◌++◌, map, all, keep,
  take, length, length-take, length-append, leb, arith,
}
use aiops_rca_orchestrator.Common.Laws.{length-map}
use aiops_rca_orchestrator.Common.Text.{text_length}
use aiops_rca_orchestrator.Common.TextLaws.{text_length-take}
use aiops_rca_orchestrator.Schema.Investigation.{UnknownItem}
use aiops_rca_orchestrator.Service.Clarify.{
  actionable, ordered, line, or_default, clarification_lines,
}

lines-short :
    (items : List UnknownItem) → all (λ l. leb (text_length l) 500) (map line items) ≡ true
lines-short [] = refl
lines-short (item ∷ items) = ground (arith, lines-short items, text_length-take 500 item.message)

-- Lines within the contract, but for their number, which may be none.
or_default-fit :
    (lines : List String)
    → length lines ≤ 20
    → all (λ l. leb (text_length l) 500) lines ≡ true
    → (1 ≤ length (or_default lines))
      × (length (or_default lines) ≤ 20)
      × (all (λ l. leb (text_length l) 500) (or_default lines) ≡ true)
unfolding text_length
or_default-fit [] few short = (omega arith, omega arith, refl)
or_default-fit (l ∷ ls) few short = (omega arith, few, short)

-- The lines that go back to the asker are at least one and at most 20, and each has at most 500
-- characters, as the contract of `ambiguities` asks, whatever the run could not settle.
pub clarification_lines-fit :
    (unknowns : List UnknownItem)
    → (1 ≤ length (clarification_lines unknowns))
      × (length (clarification_lines unknowns) ≤ 20)
      × (all (λ l. leb (text_length l) 500) (clarification_lines unknowns) ≡ true)
unfolding clarification_lines
clarification_lines-fit unknowns =
    or_default-fit (map line (take 20 (ordered unknowns)))
      (omega
        (arith, length-map line (take 20 (ordered unknowns)), length-take 20 (ordered unknowns)))
      (lines-short (take 20 (ordered unknowns)))

taken {ℓ κ} :
    {A : Type ℓ} {B : Type κ} (f : A → B) (n : ℕ) (xs ys : List A)
    → take (length (take n xs)) (map f (take n (xs ++ ys))) ≡ map f (take n xs)
taken f zero xs ys = refl
taken f (suc n) [] ys = refl
taken f (suc n) (x ∷ xs) ys = ap (λ r. f x ∷ r) (taken f n xs ys)

take-or_default :
    (n : ℕ) (lines : List String) → n ≤ length lines → take n (or_default lines) ≡ take n lines
take-or_default zero lines h = refl
take-or_default (suc n) [] h = absurd (omega arith)
take-or_default (suc n) (l ∷ ls) h = refl

-- Of the unknowns that the asker can act on the first 20, or all of them where they are fewer, lead
-- the lines that go back: their messages, cut to 500 characters, are the first lines, in their order.
-- Where none can be acted on this says nothing of the lines.
pub clarification_lines-lead :
    (unknowns : List UnknownItem)
    → take (length (take 20 (keep actionable unknowns))) (clarification_lines unknowns)
      ≡ map line (take 20 (keep actionable unknowns))
unfolding clarification_lines ordered
clarification_lines-lead unknowns =
    let acted = keep actionable unknowns in
    let others = keep (λ item. not (actionable item)) unknowns in
    take-or_default (length (take 20 acted)) (map line (take 20 (acted ++ others))) (
      omega (
        arith,
        length-map line (take 20 (acted ++ others)),
        length-take 20 (acted ++ others),
        length-take 20 acted,
        length-append acted others,
      ))
    ∙ taken line 20 acted others
