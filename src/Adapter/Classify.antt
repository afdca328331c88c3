-- ===== src/Adapter/Classify.antt =====
-- `classify_result` of tools/adapters/base.py.
use aiops_rca_orchestrator.Common.{
  Bool, true, false, Option, none, some, String, List, [], ◌∷◌, is_empty, if◌then◌else◌,
}
use aiops_rca_orchestrator.Common.Text.{text_take}
use aiops_rca_orchestrator.Common.Dict.{Dict}
use aiops_rca_orchestrator.Common.Value.{
  Value, null, bool, str, list, dict, Items, nil, cons, entries, fields, get, or_else, truthy,
  Runtime,
}
use aiops_rca_orchestrator.Schema.Investigation.{
  ToolExecutionStatus, empty, filtered_empty, partial, error,
}
use aiops_rca_orchestrator.Registry.{ToolPolicy}

abbrev pub Classified : Type 0
Classified = ToolExecutionStatus × Option String

abbrev pub listed : Items → Classified
listed nil = (empty, none)
listed (cons v vs) = (ToolExecutionStatus.ok, none)

-- `_error_text`; `render` of a value that is no text stands for its `repr`.
unfoldable pub error_text : Runtime → Value → String
unfolding text_take
error_text rt (str s) = text_take 10000 s
error_text rt v = text_take 10000 (rt.render v)

unfoldable pub is_true : Value → Bool
is_true (bool b) = b
is_true _ = false

unfoldable pub is_none : Value → Bool
is_none null = true
is_none _ = false

-- What the quality block says, if it says that the reply is cut short.
unfoldable pub cut_short : Dict Value → Option Classified
unfolding is_true is_none
cut_short quality =
    if is_none (get "empty_because_filtered" quality)
    then (if is_true (get "partial" quality) then some (partial, none) else none)
    else some (filtered_empty, none)

unfoldable pub quality_verdict : Value → Option Classified
unfolding cut_short
quality_verdict (dict quality) = cut_short (entries quality)
quality_verdict _ = none

unfoldable pub nested_verdict : String → Value → Option Classified
nested_verdict name (list members) = some (listed members)
nested_verdict name _ = none

unfoldable pub field_verdict : String → Value → Option Classified
unfolding nested_verdict
field_verdict name (list members) = some (listed members)
field_verdict name (dict value) = nested_verdict name (get name (entries value))
field_verdict name _ = none

-- The loop over `result_list_fields`.
unfoldable pub fields_verdict : Dict Value → List String → Option Classified
unfolding field_verdict
fields_verdict response [] = none
fields_verdict response (f ∷ fs) =
    let others = fields_verdict response fs in
    elim (field_verdict f (get f response)) [ none ↦ others | some verdict ↦ some verdict ]

abbrev pub first_verdict : Option Classified → Classified → Classified
first_verdict none later = later
first_verdict (some verdict) later = verdict

unfoldable pub rows_verdict : ToolPolicy → Dict Value → Classified
unfolding fields_verdict
rows_verdict policy response =
    first_verdict (fields_verdict response policy.result_list_fields)
      (if is_empty response then (empty, none) else (ToolExecutionStatus.ok, none))

unfoldable pub mapping_verdict : Runtime → ToolPolicy → Dict Value → Classified
unfolding rows_verdict quality_verdict is_true error_text truthy
mapping_verdict rt policy response =
    if truthy (get "error" response)
    then (error, some (error_text rt (get "error" response)))
    else if is_true (get "isError" response)
    then (error, some (error_text rt (or_else (get "message" response) (dict (fields response)))))
    else first_verdict (quality_verdict (get "data_quality" response))
        (if is_true (get "partial" response) then (partial, none) else rows_verdict policy response)

-- `classify_result(policy, response)`. `says_no` is the test
-- `response.strip().lower().startswith("no ")`.
unfoldable pub classify_result : Runtime → (String → Bool) → ToolPolicy → Value → Classified
unfolding mapping_verdict
classify_result rt says_no policy null = (empty, none)
classify_result rt says_no policy (dict response) = mapping_verdict rt policy (entries response)
classify_result rt says_no policy (list members) = listed members
classify_result rt says_no policy (str text) =
    if says_no text then (empty, none) else (ToolExecutionStatus.ok, none)
classify_result rt says_no policy _ = (ToolExecutionStatus.ok, none)
