-- ===== src/Checks/Counts.antt =====
-- `_counted_quantities` and `_row_quantities` of evals/properties.py: a set of numbers is a list of
-- them, with those found first in front. A Boolean is a number of Python's.
pub mod Laws
use aiops_rca_orchestrator.Common.{
  ℕ, zero, suc, Bool, true, false, ◌||◌, ◌&&◌, Option, none, some, String, List, [], ◌∷◌, ◌++◌, any,
  length, ltb, leb, ◌==◌, ◌=ₜ◌, if◌then◌else◌,
}
use aiops_rca_orchestrator.Common.Text.{contains}
use aiops_rca_orchestrator.Common.Value.{
  Value, null, bool, int, real, str, list, dict, Items, nil, cons, Fields, end, field, items,
  entries, get, ℤ, pos, negsuc,
}
use aiops_rca_orchestrator.Common.Outcome.{Outcome, ok, ◌>>=◌}
use aiops_rca_orchestrator.Checks.Documents.{Reader, Document, listed}

-- A number as the code found it: an `int`, or a `bool`.
pub data Quantity : Type 0 where
  number : ℤ → Quantity
  flag : Bool → Quantity

abbrev pub worth : Quantity → ℤ
worth (number n) = n
worth (flag true) = pos 1
worth (flag false) = pos 0

abbrev pub same_number : ℤ → ℤ → Bool
same_number (pos m) (pos n) = m == n
same_number (negsuc m) (negsuc n) = m == n
same_number _ _ = false

-- Whether the set holds this number.
abbrev pub holds : List Quantity → ℤ → Bool
holds [] n = false
holds (q ∷ qs) n = same_number (worth q) n || holds qs n

-- `_COUNT_FIELDS`
abbrev pub count_fields : List String
count_fields =
    "returned" ∷ "count" ∷ "total" ∷ "omitted" ∷ "window_total" ∷ "sample_count" ∷ "iterations"
    ∷ "matched" ∷ "kernel_threads_omitted" ∷ "row_limit" ∷ "limit" ∷ []

abbrev pub is_count : Option String → Bool
is_count none = false
is_count (some name) = contains count_fields name

abbrev counted_match : (String → Outcome ℤ) → String × String → Outcome (List Quantity)
counted_match parse (key, digits) =
    if contains count_fields key then (parse digits >>= λ n. ok (number n ∷ [])) else ok []

-- The numbers of the matches whose key is a count.
unfoldable pub embedded_counts :
    (String → Outcome ℤ) → List (String × String) → Outcome (List Quantity)
embedded_counts parse [] = ok []
embedded_counts parse (match ∷ found) = counted_match parse match >>= λ first.
    embedded_counts parse found >>= λ rest. ok (first ++ rest)

-- The values that are `int`s, `bool`s among them.
abbrev pub ints : List Value → List Quantity
ints [] = []
ints (int n ∷ vs) = number n ∷ ints vs
ints (bool b ∷ vs) = flag b ∷ ints vs
ints (_ ∷ vs) = ints vs

-- The values that are `int`s and no `bool`s.
abbrev pub plain_ints : List Value → List Quantity
plain_ints [] = []
plain_ints (int n ∷ vs) = number n ∷ plain_ints vs
plain_ints (_ ∷ vs) = plain_ints vs

abbrev pub document_values : Document → List Value
document_values [] = []
document_values ((k, v) ∷ d) = v ∷ document_values d

abbrev rows_of : List Document → List Quantity
rows_of [] = []
rows_of (row ∷ rows) = plain_ints (document_values row) ++ rows_of rows

-- `_row_quantities(rows)`
unfoldable pub row_quantities : Value → List Quantity
row_quantities rows = rows_of (listed rows)

abbrev is_field : Option String → String → Bool
is_field none name = false
is_field (some f) name = f =ₜ name

-- What a mapping offers by its own field's name.
unfoldable pub own_quantities : Option String → Fields → List Quantity
unfolding row_quantities
own_quantities name fs =
    (if is_field name "select_counts" then ints (document_values (entries fs)) else [])
    ++ (if is_field name "observed" then row_quantities (get "items" (entries fs)) else [])

abbrev pub own_count : Option String → ℤ → List Quantity
own_count name n = if is_count name then number n ∷ [] else []

abbrev pub item_count : Items → ℕ
item_count vs = length (items vs)

unfoldable mutual
  -- `_counted_quantities(value, field)`
  pub counted_quantities : Reader → Option String → Value → Outcome (List Quantity)
  counted_quantities r name null = ok []
  counted_quantities r name (bool b) = ok []
  counted_quantities r name (int n) = ok (own_count name n)
  counted_quantities r name (real m e) = ok []
  counted_quantities r name (str s) = embedded_counts r.parse (r.embedded s)
  counted_quantities r name (list vs) =
      counted_items r name vs >>= λ nested. ok (number (pos (item_count vs)) ∷ nested)
  counted_quantities r name (dict fs) =
      counted_fields r fs >>= λ nested. ok (own_quantities name fs ++ nested)

  pub counted_items : Reader → Option String → Items → Outcome (List Quantity)
  counted_items r name nil = ok []
  counted_items r name (cons v vs) = counted_quantities r name v >>= λ first.
      counted_items r name vs >>= λ rest. ok (first ++ rest)

  pub counted_fields : Reader → Fields → Outcome (List Quantity)
  counted_fields r end = ok []
  counted_fields r (field k v fs) = counted_quantities r (some k) v >>= λ first.
      counted_fields r fs >>= λ rest. ok (first ++ rest)
