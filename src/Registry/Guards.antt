-- ===== src/Registry/Guards.antt =====
-- What `validate_call` lets pass, and which of its refusals another plan can answer.
use aiops_rca_orchestrator.Common.{
  ◌<◌, ◌≡◌, refl, subst, Bool, true, false, not, ◌&&◌, ◌||◌, Option, some, none, String, List, [],
  ◌∷◌, ◌=ₜ◌, arith, ◌⊎◌, inl, inr, is_empty, ltb,
}
use aiops_rca_orchestrator.Common.Dict.{Dict}
use aiops_rca_orchestrator.Common.Value.{Value, list, items, get, Runtime}
use aiops_rca_orchestrator.Common.Outcome.{
  Outcome, Exception, tool_policy_error, ok, raised, require, after, Outcome-cases, ◌>>=◌, ◌>>◌,
  ok-injective,
}
use aiops_rca_orchestrator.Registry.Policy.{
  ToolPolicy, ToolRegistry, RoutingContext, TemporalScope, is_current_only, is_historical,
  is_generic, require_digit_id, require_ends, require_digit_ids, validate_item_id,
  validate_item_ids, validate_metric_summary, validate_metric_history, validate_window,
  validate_tool_specific_arguments, missing_keys, unblocked, validate_policy, validate_arguments,
  validate_call, get_policy, present,
}

-- A reason that says something.
abbrev pub is_given : Option String → Bool
is_given none = false
is_given (some reason) = not (reason =ₜ "")

-- The policy, the budget and the scopes allow the call.
abbrev pub Allowed : ToolPolicy → RoutingContext → TemporalScope → Type 0
Allowed policy context scope =
    (context.tool_call_count < context.max_tool_calls)
    × (is_given policy.blocked_reason ≡ false)
    × ((is_current_only scope && is_historical context.temporal_scope) ≡ false)
    × ((is_generic policy.kind && not context.generic_fallback_allowed) ≡ false)

-- Whether another plan can answer the refusal, of an exception that is one.
unfoldable pub refusal : Exception → Option Bool
refusal (tool_policy_error message retryable) = some retryable
refusal _ = none

blocked-is_given :
    (name : String) (reason : Option String) (u : Unit {0})
    → unblocked name reason ≡ ok u
    → is_given reason ≡ false
unfolding unblocked
blocked-is_given name none u h = refl
blocked-is_given name (some reason) u h = ground arith

given-unblocked :
    (name : String) (reason : Option String)
    → is_given reason ≡ false
    → unblocked name reason ≡ ok tt
unfolding unblocked
given-unblocked name none h = refl
given-unblocked name (some reason) h = ground arith

module _ (rt : Runtime) (policy : ToolPolicy) (name : String) (context : RoutingContext)
    (scope : TemporalScope) where
  policy-allows : validate_policy policy name context scope ≡ ok tt → Allowed policy context scope
  unfolding validate_policy
  policy-allows h =
      after (λ _. Allowed policy context scope) (unblocked name policy.blocked_reason) _
        (λ u k rest. let given = blocked-is_given name policy.blocked_reason u k in ground arith) h

  policy-forbids :
      (e : Exception)
      → validate_policy policy name context scope ≡ raised e
      → ¬ Allowed policy context scope
  unfolding validate_policy unblocked
  policy-forbids e h (spare, free, current, special) =
      let open_one = given-unblocked name policy.blocked_reason free in
      let in_budget : ltb context.tool_call_count context.max_tool_calls ≡ true = ground arith in
      absurd (cc)

  policy-refusal :
      (e : Exception)
      → validate_policy policy name context scope ≡ raised e
      → refusal e ≡ some false
  unfolding validate_policy refusal unblocked
  policy-refusal e h = ground arith

module _ (rt : Runtime) (e : Exception) where
  digit_id-refusal :
      (v : Value) (field : String) → require_digit_id rt v field ≡ raised e → refusal e ≡ some true
  unfolding require_digit_id refusal
  digit_id-refusal v field h = ground arith

  digit_ids-refusal : (vs : List Value) → require_digit_ids rt vs ≡ raised e → refusal e ≡ some true
  unfolding require_digit_ids
  digit_ids-refusal [] h = absurd cc
  digit_ids-refusal (v ∷ vs) h =
      let first = digit_id-refusal v "item_ids[]" in
      let others = digit_ids-refusal vs in ground arith

  item_ids-refusal : (v : Value) → validate_item_ids rt v ≡ raised e → refusal e ≡ some true
  unfolding validate_item_ids refusal
  item_ids-refusal (list ids) h = let each = digit_ids-refusal (items ids) in ground arith
  item_ids-refusal _ h = ground arith

  item_id-refusal : (v : Value) → validate_item_id rt v ≡ raised e → refusal e ≡ some true
  unfolding validate_item_id refusal
  item_id-refusal v h = let scalar = digit_id-refusal v "item_id" in ground arith

  ends-refusal : (v : Value) → require_ends v ≡ raised e → refusal e ≡ some true
  unfolding require_ends refusal
  ends-refusal v h = ground arith

  window-refusal :
      (arguments : Dict Value) → validate_window arguments ≡ raised e → refusal e ≡ some true
  unfolding validate_window
  window-refusal arguments h = let ends = ends-refusal (get "window" arguments) in ground arith

  summary-refusal :
      (name : String) (arguments : Dict Value)
      → validate_metric_summary rt name arguments ≡ raised e
      → refusal e ≡ some true
  unfolding validate_metric_summary
  summary-refusal name arguments h =
      let ids = item_ids-refusal (get "item_ids" arguments) in ground arith

  history-refusal :
      (name : String) (arguments : Dict Value)
      → validate_metric_history rt name arguments ≡ raised e
      → refusal e ≡ some true
  unfolding validate_metric_history
  history-refusal name arguments h =
      let id = item_id-refusal (get "item_id" arguments) in ground arith

  step-refusal :
      (m n : Outcome (Unit {0}))
      → (m ≡ raised e → refusal e ≡ some true)
      → (n ≡ raised e → refusal e ≡ some true)
      → (m >> n) ≡ raised e
      → refusal e ≡ some true
  step-refusal m n first later h = ground arith

  query-refusal :
      (b : Bool) (message : String)
      → require b (tool_policy_error message true) ≡ raised e
      → refusal e ≡ some true
  unfolding refusal
  query-refusal b message h = ground arith

  tool_specific-refusal :
      (name : String) (arguments : Dict Value)
      → validate_tool_specific_arguments rt name arguments ≡ raised e
      → refusal e ≡ some true
  unfolding validate_tool_specific_arguments
  tool_specific-refusal name arguments h =
      step-refusal (validate_window arguments) _ (window-refusal arguments)
        (step-refusal
          (require
            (not (
              name =ₜ "find_hosts"
              && not (present (get "query" arguments) || present (get "group_ids" arguments))))
            (tool_policy_error "find_hosts requires query or group_ids" true))
          _ (query-refusal _ _)
          (step-refusal (validate_metric_summary rt name arguments) _
            (summary-refusal name arguments) (history-refusal name arguments)))
        h

  arguments-refusal :
      (policy : ToolPolicy) (name : String) (arguments : Dict Value)
      → validate_arguments rt policy name arguments ≡ raised e
      → refusal e ≡ some true
  unfolding validate_arguments refusal
  arguments-refusal policy name arguments h =
      let specific = tool_specific-refusal name arguments in ground arith

get_policy-refusal :
    (registry : ToolRegistry) (name : String) (e : Exception)
    → get_policy registry name ≡ raised e
    → refusal e ≡ some true
unfolding get_policy refusal
get_policy-refusal registry name e h = ground arith

missing-none : (keys : List String) → is_empty keys ≡ true → keys ≡ []
missing-none [] h = refl
missing-none (k ∷ ks) h = absurd cc

pub arguments-present :
    (rt : Runtime) (policy : ToolPolicy) (name : String) (arguments : Dict Value) (u : Unit {0})
    → validate_arguments rt policy name arguments ≡ ok u
    → missing_keys policy arguments ≡ []
unfolding validate_arguments
arguments-present rt policy name arguments u h =
    missing-none (missing_keys policy arguments) (ground arith)

-- A call that the registry lets pass is a call of a tool it holds, whose policy, budget and scopes
-- allow it and whose required arguments are all present.
pub validate_call-Allowed :
    (rt : Runtime) (registry : ToolRegistry) (name : String) (arguments : Dict Value)
    (context : RoutingContext) (scope : TemporalScope) (policy : ToolPolicy)
    → validate_call rt registry name arguments context scope ≡ ok policy
    → (get_policy registry name ≡ ok policy)
      × Allowed policy context scope
      × (missing_keys policy arguments ≡ [])
unfolding validate_call
validate_call-Allowed rt registry name arguments context scope policy h =
    after
      (λ p.
        (get_policy registry name ≡ ok p)
        × Allowed p context scope
        × (missing_keys p arguments ≡ []))
      (get_policy registry name) _
      (λ p found k.
        after
          (λ q.
            (get_policy registry name ≡ ok q)
            × Allowed q context scope
            × (missing_keys q arguments ≡ []))
          (validate_policy p name context scope) _
          (λ u allowed l.
            after
              (λ q.
                (get_policy registry name ≡ ok q)
                × Allowed q context scope
                × (missing_keys q arguments ≡ []))
              (validate_arguments rt p name arguments) _
              (λ v present m.
                subst
                  (λ q.
                    (get_policy registry name ≡ ok q)
                    × Allowed q context scope
                    × (missing_keys q arguments ≡ []))
                  (ok-injective p _ m)
                  (
                    found,
                    policy-allows rt p name context scope allowed,
                    arguments-present rt p name arguments v present,
                  ))
              l)
          k)
      h

last_step-raised :
    (m : Outcome (Unit {0})) (p : ToolPolicy) (e : Exception)
    → (m >>= λ _. ok p) ≡ raised e
    → m ≡ raised e
last_step-raised m p e h = ground arith

-- The refusals: a final one of a known tool that its policy, the budget or a scope does not allow,
-- and one that another plan can answer, of an unknown tool or of the arguments of an allowed call.
pub Refused :
    Runtime
    → ToolRegistry
    → String
    → Dict Value
    → RoutingContext
    → TemporalScope
    → Exception
    → Type 0
Refused rt registry name arguments context scope e =
    ((policy : ToolPolicy) × (get_policy registry name ≡ ok policy)
      × ¬ Allowed policy context scope
      × (refusal e ≡ some false))
    ⊎ ((get_policy registry name ≡ raised e) × (refusal e ≡ some true))
    ⊎ ((policy : ToolPolicy) × (get_policy registry name ≡ ok policy)
        × Allowed policy context scope
        × (validate_arguments rt policy name arguments ≡ raised e)
        × (refusal e ≡ some true))

-- Whatever `validate_call` raises is a refusal. It is final exactly if the tool is known and not
-- allowed: blocked, out of budget, of the present where the past is asked for, or generic without
-- leave. If the tool is unknown, or allowed and its arguments are wrong, another plan can answer it.
pub validate_call-refusal :
    (rt : Runtime) (registry : ToolRegistry) (name : String) (arguments : Dict Value)
    (context : RoutingContext) (scope : TemporalScope) (e : Exception)
    → validate_call rt registry name arguments context scope ≡ raised e
    → Refused rt registry name arguments context scope e
unfolding validate_call Refused
validate_call-refusal rt registry name arguments context scope e h =
    elim (Outcome-cases (get_policy registry name)) [
      | inl (p, found) ↦ elim (Outcome-cases (validate_policy p name context scope)) [
        | inl (u, allowed) ↦
            let wrong =
              last_step-raised (validate_arguments rt p name arguments) p e
                (rw (found, allowed) at h) in
            inr (
              inr (
                p,
                found,
                policy-allows rt p name context scope allowed,
                wrong,
                arguments-refusal rt e p name arguments wrong,
              ))
        | inr (d, refused) ↦
            let same : validate_policy p name context scope ≡ raised e = ground arith in
            inl (
              p,
              found,
              policy-forbids rt p name context scope e same,
              policy-refusal rt p name context scope e same,
            )
      ]
      | inr (d, unknown) ↦
          let same : get_policy registry name ≡ raised e = ground arith in
          inr (inl (same, get_policy-refusal registry name e same))
    ]
