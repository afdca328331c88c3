-- ===== src/Registry/Window.antt =====
-- `apply_window_policy` of tools/registry.py.
use aiops_rca_orchestrator.Common.{
  ℕ, ◌-◌, ◌*◌, ◌||◌, Option, none, some, String, ltb, ◌=ₜ◌, if◌then◌else◌,
}
use aiops_rca_orchestrator.Common.Text.{optional_eq}
use aiops_rca_orchestrator.Common.Dict.{Dict, insert}
use aiops_rca_orchestrator.Common.Value.{
  Value, str, dict, entries, get, or_else, truthy, Runtime, Stamp, aware, naive,
}
use aiops_rca_orchestrator.Common.Outcome.{Outcome, ok, raised, type_error, ◌>>=◌}
use aiops_rca_orchestrator.Registry.Policy.{ToolPolicy, present}

-- Two days, in microseconds.
abbrev pub long_window : ℕ
long_window = 2 * 24 * 60 * 60 * 1000000

abbrev pub long_window_policy : String
long_window_policy = "long_term_capacity"

-- `end - start`, as far as it is positive. Python refuses to subtract a timestamp with a time zone
-- and one without.
stamp_span : Option Stamp → Option Stamp → Outcome (Option ℕ)
stamp_span (some (aware start)) (some (aware stop)) = ok (some (stop - start))
stamp_span (some (naive start)) (some (naive stop)) = ok (some (stop - start))
stamp_span (some (aware start)) (some (naive stop)) =
    raised (type_error "can't subtract offset-naive and offset-aware datetimes")
stamp_span (some (naive start)) (some (aware stop)) =
    raised (type_error "can't subtract offset-naive and offset-aware datetimes")
stamp_span _ _ = ok none

text_span : Runtime → Value → Value → Outcome (Option ℕ)
unfolding stamp_span
text_span rt (str start) (str stop) = stamp_span (rt.fromisoformat start) (rt.fromisoformat stop)
text_span rt _ _ = ok none

window_end : String → Value → Value → Value
unfolding truthy
window_end key (dict window) outer = or_else outer (get key (entries window))
window_end key _ outer = outer

-- `_window_span`
unfoldable pub window_span : Runtime → Dict Value → Outcome (Option ℕ)
unfolding text_span window_end
window_span rt arguments =
    text_span rt (window_end "from" (get "window" arguments) (get "time_from" arguments))
      (window_end "to" (get "window" arguments) (get "time_to" arguments))

unfoldable pub widen : String → Dict Value → Option ℕ → Dict Value
widen argument arguments none = arguments
widen argument arguments (some span) =
    if ltb long_window span then insert argument (str long_window_policy) arguments else arguments

unfoldable pub apply_to : Runtime → String → Dict Value → Option String → Outcome (Dict Value)
unfolding present window_span widen
apply_to rt argument arguments declared =
    if argument =ₜ "" || present (get argument arguments)
    then ok arguments
    else if optional_eq declared (some long_window_policy)
    then ok (insert argument (str long_window_policy) arguments)
    else (window_span rt arguments >>= λ span. ok (widen argument arguments span))

-- `apply_window_policy(policy, arguments, declared)`
unfoldable pub apply_window_policy :
    Runtime → ToolPolicy → Dict Value → Option String → Outcome (Dict Value)
unfolding apply_to
apply_window_policy rt policy arguments declared = elim policy.window_policy_argument [
  | none ↦ ok arguments
  | some argument ↦ apply_to rt argument arguments declared
]
