-- ===== src/Examples/Results.antt =====
-- The value of a result that is known to be one.
use aiops_rca_orchestrator.Common.{◌≡◌, refl, true, false, Bool}
use aiops_rca_orchestrator.Common.Outcome.{Outcome, ok, raised}

unfoldable pub is_ok {ℓ} : {A : Type ℓ} → Outcome A → Bool
is_ok (ok a) = true
is_ok (raised e) = false

unfoldable pub value {ℓ} : {A : Type ℓ} (m : Outcome A) → is_ok m ≡ true → A
unfolding is_ok
value (ok a) h = a
value (raised e) h = absurd cc

pub value-eq {ℓ} : {A : Type ℓ} (m : Outcome A) (h : is_ok m ≡ true) → m ≡ ok (value m h)
unfolding is_ok value
value-eq (ok a) h = refl
value-eq (raised e) h = absurd cc
