-- ===== src/Common/Outcome.antt =====
-- Python's exceptions as values, and the monad in which the models' code runs.
use mathlib.Core.Path.{◌≡◌, refl, subst}
use mathlib.Core.Logic.{◌⊎◌, inl, inr}
use mathlib.Core.Bool.{Bool, true, false}
use mathlib.Core.List.{List, [], ◌∷◌}
use Prim.Native.String.{String}
use package.aiops_rca_orchestrator.Common.Tests.{if◌then◌else◌}

mutual
  -- An exception of another library: its class and its text, or an `ExceptionGroup`.
  pub data Failure : Type 0 where
    plain : (class_name text : String) → Failure
    group : Failures → Failure

  pub data Failures : Type 0 where
    nil : Failures
    cons : Failure → Failures → Failures

-- `ToolPolicyError` carries whether another plan could answer it. A model whose fields break
-- their declared bounds raises pydantic's `ValidationError`.
pub data Exception : Type 0 where
  value_error runtime_error type_error validation_error : String → Exception
  failure : Failure → Exception
  tool_policy_error : (message : String) (retryable : Bool) → Exception

pub data Outcome {ℓ} (A : Type ℓ) : Type ℓ where
  ok : A → Outcome A
  raised : Exception → Outcome A

infixl 5 ◌>>◌ ◌>>=◌
-- The code that follows runs on the value, and not at all after an exception.
abbrev pub ◌>>=◌ {ℓ ι} :
    {Value : Type ℓ} {Next : Type ι} → Outcome Value → (Value → Outcome Next) → Outcome Next
ok value >>= next = next value
raised exception >>= next = raised exception

-- `if not condition: raise exception`
abbrev pub require : (condition : Bool) → Exception → Outcome (Unit {0})
require true exception = ok tt
require false exception = raised exception

abbrev pub ◌>>◌ {ι} : {Next : Type ι} → Outcome (Unit {0}) → Outcome Next → Outcome Next
first >> rest = first >>= λ done. rest

-- The results in order, or the first exception.
abbrev pub traverse {ℓ κ} : {A : Type ℓ} {B : Type κ} → (A → Outcome B) → List A → Outcome (List B)
traverse f [] = ok []
traverse f (x ∷ xs) = f x >>= λ y. traverse f xs >>= λ ys. ok (y ∷ ys)

pub Outcome-cases {ℓ} :
    {A : Type ℓ} (m : Outcome A) → ((a : A) × (m ≡ ok a)) ⊎ ((e : Exception) × (m ≡ raised e))
Outcome-cases (ok a) = inl (a, refl)
Outcome-cases (raised e) = inr (e, refl)

-- A property of what a chain of steps returns, from its last step.
pub after {ℓ κ ι} :
    {A : Type ℓ} {B : Type κ} (P : B → Type ι) (m : Outcome A) (f : A → Outcome B) {b : B}
    → ((a : A) → m ≡ ok a → f a ≡ ok b → P b)
    → (m >>= f) ≡ ok b
    → P b
after P (ok a) f last h = last a refl h
after P (raised e) f last h = cc

pub ok-injective {ℓ} : {A : Type ℓ} (a b : A) → ok a ≡ ok b → a ≡ b
ok-injective a b h = cc

-- The same where the last step returns.
pub returned {ℓ κ ι} :
    {A : Type ℓ} {B : Type κ} (P : B → Type ι) (m : Outcome A) (f : A → B) {b : B}
    → ((a : A) → P (f a))
    → (m >>= λ a. ok (f a)) ≡ ok b
    → P b
returned P (ok a) f {b} last h = subst P (ok-injective (f a) b h) (last a)
returned P (raised e) f last h = cc

-- The same where the last step is one of two.
pub either {ℓ κ} :
    {B : Type ℓ} (P : B → Type κ) (b : Bool) (x y : Outcome B) {t : B}
    → (x ≡ ok t → P t)
    → (y ≡ ok t → P t)
    → (if b then x else y) ≡ ok t
    → P t
either P true x y f g h = f h
either P false x y f g h = g h

-- A requirement that was met.
pub required {ℓ} :
    {B : Type ℓ} (b : Bool) (e : Exception) (m : Outcome B) {t : B}
    → (require b e >>= λ _. m) ≡ ok t
    → (b ≡ true) × (m ≡ ok t)
required true e m h = (refl, h)
required false e m h = cc
