-- ===== src/Registry/Widening.antt =====
-- What `apply_window_policy` adds to the arguments of a call.
use aiops_rca_orchestrator.Common.{
  ℕ, ◌≡◌, refl, sym, Bool, false, ◌||◌, Option, some, none, String, ◌=ₜ◌, arith, ◌⊎◌, inl, inr,
  Bool-cases, Option-cases, ltb,
}
use aiops_rca_orchestrator.Common.Text.{optional_eq}
use aiops_rca_orchestrator.Common.Dict.{Dict, insert}
use aiops_rca_orchestrator.Common.Value.{Value, str, get, Runtime}
use aiops_rca_orchestrator.Common.Outcome.{ok, returned, ok-injective}
use aiops_rca_orchestrator.Registry.Policy.{ToolPolicy, present}
use aiops_rca_orchestrator.Registry.Window.{
  apply_window_policy, apply_to, widen, window_span, long_window, long_window_policy,
}

-- The arguments as they were, or the long-term policy under an argument that was absent.
abbrev pub Widened : String → Dict Value → Dict Value → Type 0
Widened argument arguments result =
    (result ≡ arguments)
    ⊎ (present (get argument arguments) ≡ false)
      × (result ≡ insert argument (str long_window_policy) arguments)

or_right : (a b : Bool) → (a || b) ≡ false → b ≡ false
or_right a b h = ground arith

module _ (rt : Runtime) (argument : String) (arguments : Dict Value) where
  widen-Widened :
      (span : Option ℕ)
      → present (get argument arguments) ≡ false
      → Widened argument arguments (widen argument arguments span)
  unfolding widen
  widen-Widened none absent = inl refl
  widen-Widened (some span) absent = elim (Bool-cases (ltb long_window span)) [
    | inl long ↦ inr (absent, rw long)
    | inr short ↦ inl (rw short)
  ]

  apply_to-Widened :
      (declared : Option String) (result : Dict Value)
      → apply_to rt argument arguments declared ≡ ok result
      → Widened argument arguments result
  unfolding apply_to
  apply_to-Widened declared result h =
      elim (Bool-cases (argument =ₜ "" || present (get argument arguments))) [
        | inl kept ↦ inl (sym (ok-injective _ _ (rw kept at h)))
        | inr unset ↦ elim (Bool-cases (optional_eq declared (some long_window_policy))) [
          | inl long ↦ inr (or_right _ _ unset, sym (ok-injective _ _ (rw (unset, long) at h)))
          | inr other ↦
              returned (Widened argument arguments) (window_span rt arguments)
                (widen argument arguments) (λ span. widen-Widened span (or_right _ _ unset))
                (rw (unset, other) at h)
        ]
      ]

-- A policy that can be applied changes the arguments in one way only: it adds the long-term
-- window policy under the argument that the tool's policy names, and only where that argument
-- was absent. A value that the caller gave is never overridden.
pub apply_window_policy-Widened :
    (rt : Runtime) (policy : ToolPolicy) (arguments : Dict Value) (declared : Option String)
    (result : Dict Value)
    → apply_window_policy rt policy arguments declared ≡ ok result
    → (result ≡ arguments)
      ⊎ (argument : String) × (policy.window_policy_argument ≡ some argument)
        × Widened argument arguments result
unfolding apply_window_policy
apply_window_policy-Widened rt policy arguments declared result h =
    elim (Option-cases policy.window_policy_argument) [
      | inl none_named ↦ inl (sym (ok-injective _ _ (rw none_named at h)))
      | inr (argument, named) ↦
          inr (
            argument,
            named,
            apply_to-Widened rt argument arguments declared result (rw named at h),
          )
    ]
