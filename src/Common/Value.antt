-- ===== src/Common/Value.antt =====
-- Values of the dynamic language: what JSON, tool arguments and tool replies are made of.
use Prim.Native.Nat.{ℕ, zero, suc}
use Prim.Native.String.{String}
use mathlib.Core.Bool.{Bool, true, false, not}
use mathlib.Core.List.{List, [], ◌∷◌}
use mathlib.Core.Option.{Option, none, some}
use package.aiops_rca_orchestrator.Common.Tests.{◌=ₜ◌, if◌then◌else◌}
use package.aiops_rca_orchestrator.Common.Text.{◌<>◌, decimal}
use package.aiops_rca_orchestrator.Common.Dict.{Dict, lookup}
use package.aiops_rca_orchestrator.Common.Outcome.{Outcome}

-- `negsuc n` is -(n + 1).
pub data ℤ : Type 0 where
  pos negsuc : ℕ → ℤ

mutual
  -- `real m e` is the finite float m · 2 ^ e.
  pub data Value : Type 0 where
    null : Value
    bool : Bool → Value
    int : ℤ → Value
    real : (mantissa exponent : ℤ) → Value
    str : String → Value
    list : Items → Value
    dict : Fields → Value

  pub data Items : Type 0 where
    nil : Items
    cons : Value → Items → Items

  pub data Fields : Type 0 where
    end : Fields
    field : String → Value → Fields → Fields

abbrev pub items : Items → List Value
items nil = []
items (cons v vs) = v ∷ items vs

abbrev pub entries : Fields → Dict Value
entries end = []
entries (field k v fs) = (k, v) ∷ entries fs

abbrev pub fields : Dict Value → Fields
fields [] = end
fields ((k, v) ∷ d) = field k v (fields d)

-- `d.get(k)`: a missing key reads as `None`.
abbrev pub get : String → Dict Value → Value
get k d = elim (lookup k d) [ none ↦ null | some v ↦ v ]

is_zero : ℤ → Bool
is_zero (pos zero) = true
is_zero _ = false

-- `bool(value)`
unfoldable pub truthy : Value → Bool
unfolding is_zero
truthy null = false
truthy (bool b) = b
truthy (int n) = not (is_zero n)
truthy (real m e) = not (is_zero m)
truthy (str s) = not (s =ₜ "")
truthy (list nil) = false
truthy (list (cons v vs)) = true
truthy (dict end) = false
truthy (dict (field k v fs)) = true

-- `a or b`
abbrev pub or_else : Value → Value → Value
or_else a b = if truthy a then a else b

-- A timestamp that `datetime.fromisoformat` reads, with or without a time zone, in microseconds.
pub data Stamp : Type 0 where
  aware naive : ℕ → Stamp

-- What the code takes from the interpreter and its standard library, as functions: `repr` of a
-- text, `str` of a value that is no text and no number, `casefold`, `json.loads` (with the
-- exception that it raises) and `json.dumps`, `str.isdigit`, the SHA-256 fingerprint, and
-- `datetime.fromisoformat` (`none` where it raises), `str.strip`, and `round` of the float
-- m · 2 ^ e to a whole number and to three places.
pub record Runtime : Type 0 where
  pub repr : String → String
  pub render : Value → String
  pub casefold : String → String
  pub loads : String → Outcome Value
  pub dumps : Value → String
  pub is_digit : String → Bool
  pub fingerprint : Value → String
  pub fromisoformat : String → Option Stamp
  pub strip : String → String
  pub round_whole : (mantissa exponent : ℤ) → Value
  pub round_places : (mantissa exponent : ℤ) → Value

int_text : ℤ → String
int_text (pos n) = decimal n
int_text (negsuc n) = "-" <> decimal (suc n)

-- `str(value)`
unfoldable pub to_str : Runtime → Value → String
unfolding int_text
to_str rt null = "None"
to_str rt (bool true) = "True"
to_str rt (bool false) = "False"
to_str rt (int n) = int_text n
to_str rt (str s) = s
to_str rt v = rt.render v
