-- ===== src/Normalizer/Rows.antt =====
-- `_rows_in`, `_trailing_rows`, `_observed_list` and `_observed_text` of tools/normalizer.py.
use aiops_rca_orchestrator.Common.{
  ℕ, ◌+◌, ◌-◌, not, ◌&&◌, Option, none, some, String, List, [], ◌∷◌, ◌++◌, ltb, ◌==◌, ◌=ₜ◌,
  if◌then◌else◌, length, is_empty, keep,
}
use aiops_rca_orchestrator.Common.Text.{
  ◌<>◌, text_length, decimal, join, from_bracket, before_bracket,
}
use aiops_rca_orchestrator.Common.Dict.{Dict}
use aiops_rca_orchestrator.Common.Value.{
  Value, str, list, dict, cons, items, entries, fields, get, Runtime,
}
use aiops_rca_orchestrator.Common.Outcome.{Outcome, ok, raised}
use aiops_rca_orchestrator.Schema.Evidence.{ObservedList}
use aiops_rca_orchestrator.Registry.{ToolPolicy, ToolRegistry, get_policy}

abbrev pub list_capacity_chars : ℕ
list_capacity_chars = 12000

-- A list that is not empty.
rows_of : Value → Option (List Value)
rows_of (list (cons v vs)) = some (v ∷ items vs)
rows_of _ = none

loaded_rows : Outcome Value → Option (List Value)
unfolding rows_of
loaded_rows (ok value) = rows_of value
loaded_rows (raised e) = none

-- `_trailing_rows`
unfoldable pub trailing_rows : Runtime → String → Option (List Value)
unfolding loaded_rows from_bracket
trailing_rows rt text = elim (from_bracket text) [
  | none ↦ none
  | some rest ↦ loaded_rows (rt.loads rest)
]

first_field : Dict Value → List String → Option (String × List Value)
unfolding rows_of
first_field response [] = none
first_field response (f ∷ fs) =
    let others = first_field response fs in
    elim (rows_of (get f response)) [ none ↦ others | some rows ↦ some (f, rows) ]

policy_rows : Dict Value → Outcome ToolPolicy → Option (String × List Value)
unfolding first_field
policy_rows response (ok policy) = first_field response policy.result_list_fields
policy_rows response (raised e) = none

named_rows : Option (List Value) → Option (String × List Value)
named_rows none = none
named_rows (some rows) = some ("rows", rows)

-- `_rows_in`
unfoldable pub rows_in : Runtime → ToolRegistry → String → Value → Option (String × List Value)
unfolding policy_rows named_rows rows_of trailing_rows get_policy
rows_in rt registry tool_name (dict response) =
    policy_rows (entries response) (get_policy registry tool_name)
rows_in rt registry tool_name (list rows) = named_rows (rows_of (list rows))
rows_in rt registry tool_name (str text) = named_rows (trailing_rows rt text)
rows_in rt registry tool_name _ = none

-- The loop of `_observed_list`, with the characters spent so far and the rows carried so far.
unfoldable pub carry : Runtime → ℕ → List (Dict Value) → List Value → List (Dict Value)
unfolding text_length
carry rt spent carried [] = carried
carry rt spent carried (dict row ∷ rows) =
    let cost = text_length (rt.dumps (dict row)) in
    let rest = carry rt (spent + cost) (carried ++ entries row ∷ []) rows in
    if ltb list_capacity_chars (spent + cost) && not (is_empty carried) then carried else rest
carry rt spent carried (row ∷ rows) = carry rt spent carried rows

observe : String → ℕ → List (Dict Value) → Option ObservedList
observe kind total [] = none
observe kind total (row ∷ rows) =
    some (record { kind = kind; items = row ∷ rows; omitted = total - length (row ∷ rows) })

-- `_observed_list`
unfoldable pub observed_list : Runtime → ToolRegistry → String → Value → Option ObservedList
unfolding rows_in carry observe
observed_list rt registry tool_name response = elim (rows_in rt registry tool_name response) [
  | none ↦ none
  | some (kind, rows) ↦ observe kind (length rows) (carry rt 0 [] rows)
]

-- What the tool said besides the rows.
said_besides : Runtime → String → Value → List String
unfolding before_bracket
said_besides rt kind (dict response) =
    let rest = keep (λ (k, v). not (k =ₜ kind)) (entries response) in
    if is_empty rest then [] else rt.dumps (dict (fields rest)) ∷ []
said_besides rt kind (str response) =
    let said = rt.strip (before_bracket response) in if said =ₜ "" then [] else said ∷ []
said_besides rt kind _ = []

-- `_observed_text`
unfoldable pub observed_text : Runtime → ObservedList → Value → String
unfolding said_besides join
observed_text rt observed response = join " " (
    (decimal (length observed.items) <> (" " <> observed.kind))
      ∷ (if observed.omitted == 0
          then []
          else ("(" <> (decimal observed.omitted <> " more not carried here)")) ∷ [])
    ++ said_besides rt observed.kind response)
