-- ===== src/Common/Laws.antt =====
-- Laws of the list searches, and of the texts in lists.
use Prim.Native.Nat.{ℕ, zero, suc}
use Prim.Native.String.{String}
use mathlib.Core.Path.{◌≡◌, refl, ap}
use mathlib.Core.Bool.{Bool, true, ◌&&◌, ◌||◌}
use mathlib.Core.List.{List, [], ◌∷◌, ◌++◌, map}
use native.Mathlib.Omega.{arith}
use package.aiops_rca_orchestrator.Common.Tests.{◌=ₜ◌, text_eq_iff}
use package.aiops_rca_orchestrator.Common.Lists.{length, all, keep, take}
use package.aiops_rca_orchestrator.Common.Text.{contains}

pub text_eq_sym : (s t : String) → (s =ₜ t) ≡ (t =ₜ s)
text_eq_sym s t = ground (arith, text_eq_iff s t, text_eq_iff t s)

pub contains-append :
    (xs ys : List String) (t : String) → contains (xs ++ ys) t ≡ (contains xs t || contains ys t)
contains-append [] ys t = refl
contains-append (x ∷ xs) ys t = ground (arith, contains-append xs ys t)

-- A list is among a list that has all that it has.
pub all-contains_cons :
    (x : String) (known ts : List String)
    → all (contains known) ts ≡ true
    → all (contains (x ∷ known)) ts ≡ true
all-contains_cons x known [] h = refl
all-contains_cons x known (t ∷ ts) h = ground (arith, all-contains_cons x known ts)

pub all-contains_self : (ts : List String) → all (contains ts) ts ≡ true
all-contains_self [] = refl
all-contains_self (t ∷ ts) =
    ground (arith, text_eq_iff t t, all-contains_cons t ts ts (all-contains_self ts))

-- Whether every member is known, asked of one member.
pub all-contains :
    (known ts : List String) (t : String)
    → all (contains known) ts ≡ true
    → contains ts t ≡ true
    → contains known t ≡ true
all-contains known [] t h k = absurd cc
all-contains known (s ∷ ts) t h k = ground (arith, all-contains known ts t, text_eq_iff t s)

module _ {ℓ} {A : Type ℓ} where
  pub keep-append : (p : A → Bool) (xs ys : List A) → keep p (xs ++ ys) ≡ keep p xs ++ keep p ys
  keep-append p [] ys = refl
  keep-append p (x ∷ xs) ys = ground (arith, keep-append p xs ys)

  pub all-append : (p : A → Bool) (xs ys : List A) → all p (xs ++ ys) ≡ (all p xs && all p ys)
  all-append p [] ys = refl
  all-append p (x ∷ xs) ys = ground (arith, all-append p xs ys)

  pub all-map {κ} :
      {B : Type κ} (p : B → Bool) (f : A → B) (xs : List A)
      → all p (map f xs) ≡ all (λ x. p (f x)) xs
  all-map p f [] = refl
  all-map p f (x ∷ xs) = ap (λ b. p (f x) && b) (all-map p f xs)

  pub all-keep : (p q : A → Bool) (xs : List A) → all p xs ≡ true → all p (keep q xs) ≡ true
  all-keep p q [] h = refl
  all-keep p q (x ∷ xs) h = ground (arith, all-keep p q xs)

  pub all-kept : (p : A → Bool) (xs : List A) → all p (keep p xs) ≡ true
  all-kept p [] = refl
  all-kept p (x ∷ xs) = ground (arith, all-kept p xs)

  pub all-take : (p : A → Bool) (n : ℕ) (xs : List A) → all p xs ≡ true → all p (take n xs) ≡ true
  all-take p zero xs h = refl
  all-take p (suc n) [] h = refl
  all-take p (suc n) (x ∷ xs) h = ground (arith, all-take p n xs)

  pub length-map {κ} : {B : Type κ} (f : A → B) (xs : List A) → length (map f xs) ≡ length xs
  length-map f [] = refl
  length-map f (x ∷ xs) = ap suc (length-map f xs)
