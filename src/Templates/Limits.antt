-- ===== src/Templates/Limits.antt =====
-- `prepare_collection` of services/templates.py.
pub mod Laws
use aiops_rca_orchestrator.Common.{
  ℕ, zero, suc, ◌+◌, ◌*◌, ◌/◌, max, min, Bool, true, false, ◌&&◌, Option, none, some, String, List,
  [], leb, if◌then◌else◌, length,
}
use aiops_rca_orchestrator.Common.Dict.{Dict, insert}
use aiops_rca_orchestrator.Common.Value.{
  Value, null, bool, int, real, str, list, dict, field, end, ℤ, pos, negsuc, get, or_else, truthy,
  to_str, Runtime,
}
use aiops_rca_orchestrator.Common.Outcome.{
  Outcome, ok, raised, require, type_error, validation_error, ◌>>=◌, ◌>>◌,
}
use aiops_rca_orchestrator.Schema.Investigation.{
  Moment, InvestigationLimits, ParsedRequest, RequestEnvelope,
}
use aiops_rca_orchestrator.Normalizer.Fields.{mapping}
use aiops_rca_orchestrator.Templates.Select.{ReportTemplate}
use aiops_rca_orchestrator.Templates.Window.{Zone, Span, resolve_window}

abbrev power : ℕ → ℕ
power zero = 1
power (suc n) = 2 * power n

-- A number of this size, with the sign of the first argument.
abbrev signed : ℤ → ℕ → ℤ
signed (pos m) n = pos n
signed (negsuc m) zero = pos 0
signed (negsuc m) (suc n) = negsuc n

abbrev size : ℤ → ℕ
size (pos m) = m
size (negsuc m) = suc m

-- `int` of the float m · 2 ^ e: towards zero.
truncated : (mantissa exponent : ℤ) → ℤ
truncated m (pos e) = signed m (size m * power e)
truncated m (negsuc e) = signed m (size m / power (suc e))

-- `int(value)`; `parse` is what it makes of a text.
unfoldable pub int_of : (String → Outcome ℤ) → Value → Outcome ℤ
unfolding truncated
int_of parse (int n) = ok n
int_of parse (bool true) = ok (pos 1)
int_of parse (bool false) = ok (pos 0)
int_of parse (real m e) = ok (truncated m e)
int_of parse (str s) = parse s
int_of parse _ = raised (type_error "int() argument must be a string or a real number")

abbrev at_most : ℕ → ℤ → ℤ
at_most n (pos m) = pos (min n m)
at_most n (negsuc m) = negsuc m

-- A whole number from 1 to `most`.
abbrev in_range : ℕ → ℤ → Bool
in_range most (pos n) = leb 1 n && leb n most
in_range most (negsuc n) = false

-- `InvestigationLimits(...)`
unfoldable pub investigation_limits : (calls iterations seconds : ℤ) → Outcome InvestigationLimits
investigation_limits calls iterations seconds = do
  require (in_range 100 calls && (in_range 20 iterations && in_range 3600 seconds))
      (validation_error "InvestigationLimits")
  ok (record {
    max_tool_calls = size calls;
    max_iterations = size iterations;
    max_duration_seconds = size seconds;
  })

abbrev number : ℕ → Value
number n = int (pos n)

-- The budget of calls where the template names none.
abbrev pub default_calls : ParsedRequest → ℕ
default_calls parsed = min 60 (10 + 20 * max 1 (length parsed.host_queries))

unfoldable pub resolved_limits :
    (String → Outcome ℤ) → Dict Value → ParsedRequest → Outcome InvestigationLimits
unfolding int_of investigation_limits truthy
resolved_limits parse limits parsed = do
  iterations ← int_of parse (or_else (get "max_iterations" limits) (number 10))
  calls ← int_of parse (or_else (get "max_tool_calls" limits) (number (default_calls parsed)))
  seconds ← int_of parse (or_else (get "max_duration_seconds" limits) (number 600))
  investigation_limits (at_most 100 calls) iterations seconds

-- A window as it stands in the collection; `instant` is `_instant`, the text of a moment.
abbrev pub window_value : (Moment → String) → Span → Value
window_value instant w =
    dict (field "from" (str (instant w.0)) (field "to" (str (instant w.1)) end))

-- `prepare_collection(template, parsed, request)`
unfoldable pub prepare_collection :
    Runtime
    → Outcome Zone
    → (String → Outcome ℤ)
    → (Moment → String)
    → ReportTemplate
    → ParsedRequest
    → RequestEnvelope
    → Outcome (Dict Value × InvestigationLimits)
unfolding resolve_window resolved_limits
prepare_collection rt zone parse instant template parsed request = do
  w ← resolve_window rt zone template.collection parsed request
  let collection = insert "resolved_window" (window_value instant w) template.collection
  limits ← resolved_limits parse (mapping (get "limits" collection)) parsed
  ok (collection, limits)
