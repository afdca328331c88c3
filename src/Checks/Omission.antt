-- ===== src/Checks/Omission.antt =====
-- `omission_is_disclosed` of evals/properties.py.
use aiops_rca_orchestrator.Common.{
  ℕ, zero, suc, ◌+◌, ◌*◌, Bool, true, false, ◌&&◌, ◌||◌, Option, none, some, String, List, [], ◌∷◌,
  ◌++◌, any, ◌=ₜ◌, if◌then◌else◌,
}
use aiops_rca_orchestrator.Common.Text.{◌<>◌, join, text_contains}
use aiops_rca_orchestrator.Common.Value.{
  Value, null, bool, int, real, str, dict, fields, entries, get, to_str, ℤ, pos, negsuc,
}
use aiops_rca_orchestrator.Common.Outcome.{Outcome, ok, ◌>>=◌, traverse}
use aiops_rca_orchestrator.Nodes.Writer.{Finding}
use aiops_rca_orchestrator.Service.Sections.{hashed}
use aiops_rca_orchestrator.Checks.Documents.{
  Reader, Document, sections_of, evidence_items, iterated, texts,
}
use aiops_rca_orchestrator.Checks.Counts.{Quantity, holds, same_number, counted_quantities}

-- `_DISCLOSURES`
abbrev disclosures : List String
disclosures = "생략" ∷ "잘림" ∷ "일부" ∷ "전체가 아" ∷ "omitted" ∷ "truncat" ∷ []

abbrev power : ℕ → ℕ
power zero = 1
power (suc n) = 2 * power n

abbrev times : ℤ → ℕ → ℤ
times (pos m) n = pos (m * n)
times (negsuc m) zero = pos 0
times (negsuc m) (suc n) = negsuc (m + n + m * n)

abbrev grown : ℤ → ℕ
grown (pos e) = e
grown (negsuc e) = zero

abbrev shrunk : ℤ → ℕ
shrunk (pos e) = zero
shrunk (negsuc e) = suc e

-- A number as m · 2 ^ e.
abbrev scale : Value → Option (ℤ × ℤ)
scale (bool b) = some (if b then pos 1 else pos 0, pos 0)
scale (int n) = some (n, pos 0)
scale (real m e) = some (m, e)
scale _ = none

abbrev same_scaled : Option (ℤ × ℤ) → Option (ℤ × ℤ) → Bool
same_scaled (some (m, e)) (some (n, f)) =
    same_number (times m (power (grown e + shrunk f))) (times n (power (grown f + shrunk e)))
same_scaled _ _ = false

-- Equality of two values that have a hash.
unfoldable pub same_value : Value → Value → Bool
same_value null null = true
same_value (str s) (str t) = s =ₜ t
same_value v w = same_scaled (scale v) (scale w)

-- `cited`, from the items of one section.
unfoldable pub cited_by_items : Reader → List Value → Outcome (List Value)
unfolding iterated hashed
cited_by_items r [] = ok []
cited_by_items r (dict fs ∷ vs) = iterated r (get "evidence_refs" (entries fs)) >>= λ refs.
    traverse hashed refs >>= λ first. cited_by_items r vs >>= λ rest. ok (first ++ rest)
cited_by_items r (_ ∷ vs) = cited_by_items r vs

unfoldable pub cited_values : Reader → List Document → Outcome (List Value)
unfolding iterated cited_by_items
cited_values r [] = ok []
cited_values r (s ∷ ss) = iterated r (get "items" s) >>= λ items.
    cited_by_items r items >>= λ first. cited_values r ss >>= λ rest. ok (first ++ rest)

abbrev is_positive : Value → Bool
is_positive (int (pos (suc n))) = true
is_positive (bool b) = b
is_positive _ = false

abbrev omitted : Value → Value
omitted (dict observed) = get "omitted" (entries observed)
omitted _ = null

-- The cited items whose list was shortened.
unfoldable pub shortened : List Value → List Document → Outcome (List Document)
unfolding hashed same_value
shortened cited [] = ok []
shortened cited (e ∷ es) = hashed (get "evidence_id" e) >>= λ id. shortened cited es >>= λ rest.
    ok (
      if any (same_value id) cited && is_positive (omitted (get "observed" e))
      then e ∷ rest
      else rest)

abbrev all_texts : List Document → List String
all_texts [] = []
all_texts (s ∷ ss) = texts s ++ all_texts ss

abbrev common : List Quantity → List ℤ → Bool
common qs [] = false
common qs (n ∷ ns) = holds qs n || common qs ns

abbrev undisclosed : Reader → Document → Finding
undisclosed r e = record {
  check = "omission_is_disclosed";
  detail =
      to_str r.rt (omitted (get "observed" e))
      <> (" rows were left out of "
          <> (to_str r.rt (get "evidence_id" e) <> " and the report repeats none of its counts"));
  section_id = none;
}

unfoldable pub undisclosed_items : Reader → List ℤ → List Document → Outcome (List Finding)
unfolding counted_quantities to_str
undisclosed_items r stated [] = ok []
undisclosed_items r stated (e ∷ es) = counted_quantities r none (dict (fields e)) >>= λ counts.
    undisclosed_items r stated es >>= λ rest.
    ok (if common counts stated then rest else undisclosed r e ∷ rest)

-- The report holds a word of disclosure, or repeats a count of each list that was shortened.
judge_omissions : Reader → String → List Document → Outcome (List Finding)
unfolding undisclosed_items text_contains
judge_omissions r whole [] = ok []
judge_omissions r whole (e ∷ es) =
    if any (λ word. text_contains word whole) disclosures
    then ok []
    else (traverse r.parse (r.digits whole) >>= λ stated. undisclosed_items r stated (e ∷ es))

-- `omission_is_disclosed(package, report)`
unfoldable pub omission_is_disclosed : Reader → (pack report : Document) → Outcome (List Finding)
unfolding sections_of cited_values evidence_items shortened judge_omissions texts join
omission_is_disclosed r pack report = do
  cited ← cited_values r (sections_of report)
  short ← shortened cited (evidence_items pack)
  judge_omissions r (join " " (all_texts (sections_of report))) short
