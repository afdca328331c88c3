-- ===== src/Common/TextLaws.antt =====
-- Laws of texts.
use Prim.Native.Char.{Char}
use Prim.Native.String.append
use Prim.Native.String.{String, ◌++◌ as ◌<>◌}
use Prim.Native.Nat.{ℕ, zero, suc, ◌+◌, ◌≤◌}
use native.Mathlib.Omega.{arith}
use mathlib.Core.Path.{◌≡◌, sym, ap, ◌∙◌}
use mathlib.Core.Logic.{inl, inr}
use mathlib.Core.Bool.{false}
use package.aiops_rca_orchestrator.Common.Text.{text_length, text_take}
use package.aiops_rca_orchestrator.Common.Tests.{◌=ₜ◌, text_eq_iff, Bool-cases}

cons-ne-empty : (c : Char) (s : String) → ¬ (String.◌∷◌ c s ≡ "")
cons-ne-empty c s h = cc

pub append-ne-empty : (c : Char) (s t : String) → (String.◌∷◌ c s <> t =ₜ "") ≡ false
append-ne-empty c s t = elim (Bool-cases (String.◌∷◌ c s <> t =ₜ "")) [
  | inl same ↦
      absurd (cons-ne-empty c (s <> t) (sym (append.cons c s t) ∙ (text_eq_iff _ _).0 same))
  | inr other ↦ other
]

pub text_length-take : (n : ℕ) (s : String) → text_length (text_take n s) ≤ n
unfolding text_length text_take
text_length-take zero s = omega arith
text_length-take (suc n) String.[] = omega arith
text_length-take (suc n) (String.◌∷◌ c s) = omega (arith, text_length-take n s)

pub text_length-append : (s t : String) → text_length (s <> t) ≡ text_length s + text_length t
unfolding text_length
text_length-append String.[] t = omega (arith, ap text_length (append.nil t))
text_length-append (String.◌∷◌ c s) t =
    omega (arith, ap text_length (append.cons c s t), text_length-append s t)
