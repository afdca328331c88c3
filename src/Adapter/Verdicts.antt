-- ===== src/Adapter/Verdicts.antt =====
-- What comes of a call: a status of error and a text of error go together.
use aiops_rca_orchestrator.Common.{
  ◌≡◌, refl, Bool, true, false, Option, none, some, String, List, [], ◌∷◌, is_some, Bool-cases,
  is_empty, inl, inr, if◌then◌else◌,
}
use aiops_rca_orchestrator.Common.Dict.{Dict}
use aiops_rca_orchestrator.Common.Value.{
  Value, null, str, list, dict, Items, nil, cons, Runtime, entries, fields, get, or_else, truthy,
}
use aiops_rca_orchestrator.Schema.Investigation.{
  ToolExecutionStatus, error, empty, partial, is_error,
}
use aiops_rca_orchestrator.Registry.{ToolPolicy}
use aiops_rca_orchestrator.Adapter.Classify.{
  Classified, listed, first_verdict, field_verdict, fields_verdict, nested_verdict, rows_verdict,
  mapping_verdict, quality_verdict, cut_short, is_true, is_none, error_text, classify_result,
}
use aiops_rca_orchestrator.Adapter.Execute.{Call, Reply, response, timeout, failed, settle}

-- The status is an error where a text of error is given, and nowhere else.
abbrev pub Agrees : Classified → Type 0
Agrees verdict = is_error verdict.0 ≡ is_some verdict.1

-- So it is with a verdict that may not be there.
abbrev AgreesIf : Option Classified → Type 0
AgreesIf none = Unit {0}
AgreesIf (some verdict) = Agrees verdict

first-Agrees :
    (first : Option Classified) (later : Classified)
    → AgreesIf first
    → Agrees later
    → Agrees (first_verdict first later)
first-Agrees none later h k = k
first-Agrees (some verdict) later h k = h

either-Agrees : (b : Bool) (x y : Classified) → Agrees x → Agrees y → Agrees (if b then x else y)
either-Agrees true x y h k = h
either-Agrees false x y h k = k

listed-Agrees : (members : Items) → Agrees (listed members)
listed-Agrees nil = refl
listed-Agrees (cons v vs) = refl

nested-Agrees : (name : String) (v : Value) → AgreesIf (nested_verdict name v)
unfolding nested_verdict
nested-Agrees name (list members) = listed-Agrees members
nested-Agrees name _ = tt

field-Agrees : (name : String) (v : Value) → AgreesIf (field_verdict name v)
unfolding field_verdict
field-Agrees name (list members) = listed-Agrees members
field-Agrees name (dict value) = nested-Agrees name (get name (entries value))
field-Agrees name _ = tt

or_others-Agrees :
    (first others : Option Classified)
    → AgreesIf first
    → AgreesIf others
    → AgreesIf (elim first [ none ↦ others | some verdict ↦ some verdict ])
or_others-Agrees none others h k = k
or_others-Agrees (some verdict) others h k = h

fields-Agrees : (r : Dict Value) (names : List String) → AgreesIf (fields_verdict r names)
unfolding fields_verdict
fields-Agrees r [] = tt
fields-Agrees r (f ∷ fs) =
    or_others-Agrees (field_verdict f (get f r)) (fields_verdict r fs) (field-Agrees f (get f r))
      (fields-Agrees r fs)

rows-Agrees : (policy : ToolPolicy) (r : Dict Value) → Agrees (rows_verdict policy r)
unfolding rows_verdict
rows-Agrees policy r =
    first-Agrees (fields_verdict r policy.result_list_fields)
      (if is_empty r then (empty, none) else (ToolExecutionStatus.ok, none))
      (fields-Agrees r policy.result_list_fields)
      (either-Agrees (is_empty r) (empty, none) (ToolExecutionStatus.ok, none) refl refl)

cut_short-Agrees : (quality : Dict Value) → AgreesIf (cut_short quality)
unfolding cut_short
cut_short-Agrees quality = elim (Bool-cases (is_none (get "empty_because_filtered" quality))) [
  | inl unsaid ↦ elim (Bool-cases (is_true (get "partial" quality))) [
    | inl part ↦ rw (unsaid, part) refl
    | inr whole ↦ rw (unsaid, whole) tt
  ]
  | inr said ↦ rw said refl
]

quality-Agrees : (v : Value) → AgreesIf (quality_verdict v)
unfolding quality_verdict
quality-Agrees (dict quality) = cut_short-Agrees (entries quality)
quality-Agrees _ = tt

mapping-Agrees :
    (rt : Runtime) (policy : ToolPolicy) (r : Dict Value) → Agrees (mapping_verdict rt policy r)
unfolding mapping_verdict
mapping-Agrees rt policy r =
    let whole : Classified =
      if is_true (get "partial" r) then (partial, none) else rows_verdict policy r in
    let told : Classified = first_verdict (quality_verdict (get "data_quality" r)) whole in
    let flagged : Classified =
      if is_true (get "isError" r)
      then (error, some (error_text rt (or_else (get "message" r) (dict (fields r)))))
      else told in
    either-Agrees (truthy (get "error" r)) (error, some (error_text rt (get "error" r))) flagged
      refl
      (either-Agrees (is_true (get "isError" r))
        (error, some (error_text rt (or_else (get "message" r) (dict (fields r))))) told refl
        (first-Agrees (quality_verdict (get "data_quality" r)) whole
          (quality-Agrees (get "data_quality" r))
          (either-Agrees (is_true (get "partial" r)) (partial, none) (rows_verdict policy r) refl
            (rows-Agrees policy r))))

-- Whatever a server answers, and however the call fails, the result says error where it carries a
-- text of error, and only there.
pub settle-Agrees :
    (rt : Runtime) (policy : ToolPolicy) (call : Call) (reply : Reply)
    → Agrees (settle rt policy call reply)
unfolding settle classify_result
settle-Agrees rt policy call timeout = refl
settle-Agrees rt policy call (failed exception) = refl
settle-Agrees rt policy call (response null) = refl
settle-Agrees rt policy call (response (dict r)) = mapping-Agrees rt policy (entries r)
settle-Agrees rt policy call (response (list members)) = listed-Agrees members
settle-Agrees rt policy call (response (str text)) =
    either-Agrees (call.says_no text) (empty, none) (ToolExecutionStatus.ok, none) refl refl
settle-Agrees rt policy call (response _) = refl
