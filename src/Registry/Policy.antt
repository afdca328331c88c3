-- ===== src/Registry/Policy.antt =====
-- `ToolPolicy`, `ToolRegistry` and `validate_call` of tools/registry.py.
use aiops_rca_orchestrator.Common.{
  ℕ, Bool, true, false, not, ◌&&◌, ◌||◌, Option, none, some, String, List, [], ◌∷◌, map, leb, ltb,
  ◌==◌, ◌=ₜ◌, if◌then◌else◌, length, any, is_empty, keep, find,
}
use aiops_rca_orchestrator.Common.Text.{◌<>◌, join, sort, text_le, contains}
use aiops_rca_orchestrator.Common.Dict.{Dict}
use aiops_rca_orchestrator.Common.Value.{
  Value, null, str, list, dict, nil, end, items, entries, get, Runtime,
}
use aiops_rca_orchestrator.Common.Outcome.{
  Outcome, ok, raised, require, value_error, tool_policy_error, ◌>>=◌, ◌>>◌,
}
use aiops_rca_orchestrator.Sources.{ToolSource}
use aiops_rca_orchestrator.Schema.Investigation.{QuestionScope}

pub data ToolKind : Type 0 where
  structured generic inventory : ToolKind

pub data TemporalScope : Type 0 where
  historical current_only any_time : TemporalScope

pub record RoutingContext : Type 0 where
  pub temporal_scope : QuestionScope
  pub generic_fallback_allowed : Bool
  pub tool_call_count : ℕ
  pub max_tool_calls : ℕ
  pub declared_window_policy : Option String

pub record ToolPolicy : Type 0 where
  pub name : String
  pub source : ToolSource
  pub kind : ToolKind
  pub requires : List String
  pub requires_any : List String
  pub priority : ℕ
  pub blocked_reason : Option String
  pub result_list_fields : List String
  pub window_policy_argument : Option String

-- The values of `_policies`, in order; no two have one name.
pub record ToolRegistry : Type 0 where
  pub policies : List ToolPolicy

pub distinct : List String → Bool
distinct [] = true
distinct (s ∷ ss) = not (contains ss s) && distinct ss

-- `ToolRegistry(policies)`
unfoldable pub tool_registry : List ToolPolicy → Outcome ToolRegistry
unfolding distinct
tool_registry policies = do
  require (distinct (map (λ p. p.name) policies)) (value_error "tool names must be unique")
  ok (record { policies = policies })

-- `registry.get(name)`
unfoldable pub get_policy : ToolRegistry → String → Outcome ToolPolicy
get_policy registry name = elim (find (λ p. p.name =ₜ name) registry.policies) [
  | none ↦ raised (tool_policy_error ("tool is not allowlisted: " <> name) true)
  | some policy ↦ ok policy
]

comes_before : ToolPolicy → ToolPolicy → Bool
comes_before p q = ltb p.priority q.priority || p.priority == q.priority && text_le p.name q.name

insert_policy : ToolPolicy → List ToolPolicy → List ToolPolicy
unfolding comes_before
insert_policy p [] = p ∷ []
insert_policy p (q ∷ qs) = if comes_before p q then p ∷ q ∷ qs else q ∷ insert_policy p qs

sort_policies : List ToolPolicy → List ToolPolicy
unfolding insert_policy
sort_policies [] = []
sort_policies (p ∷ ps) = insert_policy p (sort_policies ps)

-- `registry.list()`: by priority, then by name.
unfoldable pub list_policies : ToolRegistry → List ToolPolicy
unfolding sort_policies
list_policies registry = sort_policies registry.policies

-- `registry.names()`
unfoldable pub names : ToolRegistry → List String
unfolding sort
names registry = sort (map (λ p. p.name) registry.policies)

-- `_present`
unfoldable pub present : Value → Bool
present null = false
present (str s) = not (s =ₜ "")
present (list nil) = false
present (dict end) = false
present _ = true

abbrev pub is_generic : ToolKind → Bool
is_generic generic = true
is_generic _ = false

abbrev pub is_historical : QuestionScope → Bool
is_historical QuestionScope.historical = true
is_historical _ = false

abbrev pub is_current_only : TemporalScope → Bool
is_current_only current_only = true
is_current_only _ = false

-- `_require_digit_id`
unfoldable pub require_digit_id : Runtime → Value → String → Outcome (Unit {0})
require_digit_id rt (str s) field =
    require (rt.is_digit s) (tool_policy_error (field <> " must be a decimal string ID") true)
require_digit_id rt _ field =
    raised (tool_policy_error (field <> " must be a decimal string ID") true)

unfoldable pub require_ends : Value → Outcome (Unit {0})
unfolding present
require_ends (dict window) =
    require (present (get "from" (entries window)) && present (get "to" (entries window)))
      (tool_policy_error "window must contain from and to" true)
require_ends _ = raised (tool_policy_error "window must contain from and to" true)

-- `_validate_window`
unfoldable pub validate_window : Dict Value → Outcome (Unit {0})
unfolding present require_ends
validate_window arguments =
    if present (get "window" arguments) then require_ends (get "window" arguments) else ok tt

-- The loop over `item_ids`.
unfoldable pub require_digit_ids : Runtime → List Value → Outcome (Unit {0})
unfolding require_digit_id
require_digit_ids rt [] = ok tt
require_digit_ids rt (v ∷ vs) = require_digit_id rt v "item_ids[]" >>= λ _. require_digit_ids rt vs

unfoldable pub validate_item_ids : Runtime → Value → Outcome (Unit {0})
unfolding require_digit_ids
validate_item_ids rt (list ids) = do
  require (leb 1 (length (items ids)) && leb (length (items ids)) 20)
      (tool_policy_error "get_metric_summary.item_ids must contain 1 to 20 IDs" true)
  require_digit_ids rt (items ids)
validate_item_ids rt _ =
    raised (tool_policy_error "get_metric_summary.item_ids must contain 1 to 20 IDs" true)

unfoldable pub validate_item_id : Runtime → Value → Outcome (Unit {0})
unfolding require_digit_id
validate_item_id rt (list ids) =
    raised (tool_policy_error "get_metric_history.item_id must be a scalar, not item_ids" true)
validate_item_id rt v = require_digit_id rt v "item_id"

unfoldable pub validate_metric_summary : Runtime → String → Dict Value → Outcome (Unit {0})
unfolding validate_item_ids
validate_metric_summary rt name arguments =
    if name =ₜ "get_metric_summary" then validate_item_ids rt (get "item_ids" arguments) else ok tt

unfoldable pub validate_metric_history : Runtime → String → Dict Value → Outcome (Unit {0})
unfolding validate_item_id
validate_metric_history rt name arguments =
    if name =ₜ "get_metric_history" then validate_item_id rt (get "item_id" arguments) else ok tt

-- `_validate_tool_specific_arguments`
unfoldable pub validate_tool_specific_arguments : Runtime → String → Dict Value → Outcome (Unit {0})
unfolding validate_window validate_metric_summary validate_metric_history present
validate_tool_specific_arguments rt name arguments = do
  validate_window arguments
  require
      (not (
        name =ₜ "find_hosts"
        && not (present (get "query" arguments) || present (get "group_ids" arguments))))
      (tool_policy_error "find_hosts requires query or group_ids" true)
  validate_metric_summary rt name arguments
  validate_metric_history rt name arguments

unfoldable pub missing_keys : ToolPolicy → Dict Value → List String
unfolding present
missing_keys policy arguments = keep (λ k. not (present (get k arguments))) policy.requires

-- `if policy.blocked_reason: raise ...`
unfoldable pub unblocked : String → Option String → Outcome (Unit {0})
unblocked name none = ok tt
unblocked name (some reason) =
    require (reason =ₜ "") (tool_policy_error (name <> (" is blocked: " <> reason)) false)

-- The guards on the policy and the budget, in the order of `validate_call`.
unfoldable pub validate_policy :
    ToolPolicy → String → RoutingContext → TemporalScope → Outcome (Unit {0})
unfolding unblocked
validate_policy policy name context declared_scope = do
  unblocked name policy.blocked_reason
  require (ltb context.tool_call_count context.max_tool_calls)
      (tool_policy_error "tool call budget is exhausted" false)
  require (not (is_current_only declared_scope && is_historical context.temporal_scope))
      (tool_policy_error (name <> " reports current state and cannot prove historical state") false)
  require (not (is_generic policy.kind && not context.generic_fallback_allowed)) (
      tool_policy_error
        (name <> " is generic and requires evidence that structured tools are insufficient") false)

-- The guards on the arguments.
unfoldable pub validate_arguments : Runtime → ToolPolicy → String → Dict Value → Outcome (Unit {0})
unfolding missing_keys present validate_tool_specific_arguments
validate_arguments rt policy name arguments = do
  require (is_empty (missing_keys policy arguments)) (
      tool_policy_error
        (name <> (" is missing required arguments: " <> join ", " (missing_keys policy arguments)))
        true)
  require (is_empty policy.requires_any || any (λ k. present (get k arguments)) policy.requires_any)
      (tool_policy_error (name <> (" requires at least one of: " <> join ", " policy.requires_any))
        true)
  validate_tool_specific_arguments rt name arguments

-- `registry.validate_call(name, arguments, context, declared_scope)`
unfoldable pub validate_call :
    Runtime
    → ToolRegistry
    → String
    → Dict Value
    → RoutingContext
    → TemporalScope
    → Outcome ToolPolicy
unfolding get_policy validate_policy validate_arguments
validate_call rt registry name arguments context declared_scope = do
  policy ← get_policy registry name
  validate_policy policy name context declared_scope
  validate_arguments rt policy name arguments
  ok policy
