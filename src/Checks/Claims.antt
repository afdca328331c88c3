-- ===== src/Checks/Claims.antt =====
-- `counts_are_grounded` of evals/properties.py.
pub mod Laws
use aiops_rca_orchestrator.Common.{
  ℕ, zero, suc, Bool, true, false, not, Option, none, some, String, List, [], ◌∷◌, ◌++◌, map, ltb,
  leb, ◌==◌, ◌=ₜ◌, if◌then◌else◌, is_empty,
}
use Prim.Native.String
use Prim.Native.Char.{code}
use aiops_rca_orchestrator.Common.Dict.{Dict, lookup, insert}
use aiops_rca_orchestrator.Common.Text.{◌<>◌, join}
use aiops_rca_orchestrator.Common.Value.{
  Value, bool, int, str, dict, fields, entries, get, to_str, ℤ, pos, negsuc,
}
use aiops_rca_orchestrator.Common.Outcome.{Outcome, ok, ◌>>=◌}
use aiops_rca_orchestrator.Nodes.Writer.{Finding}
use aiops_rca_orchestrator.Service.Sections.{hashed}
use aiops_rca_orchestrator.Checks.Documents.{
  Reader, Document, sections_of, evidence_items, iterated, section_id,
}
use aiops_rca_orchestrator.Checks.Counts.{Quantity, number, flag, worth, holds, counted_quantities}

-- `number.replace(",", "")`
unfoldable pub without_commas : String → String
without_commas String.[] = ""
without_commas (String.◌∷◌ c s) =
    let rest = without_commas s in if code c == b',' then rest else String.◌∷◌ c rest

abbrev keyed : Value → Document → Dict Document → Dict Document
keyed (str id) item known = insert id item known
keyed _ item known = known

abbrev pub index_by_id : Dict Document → List Document → Dict Document
index_by_id known [] = known
index_by_id known (e ∷ es) = index_by_id (keyed (get "evidence_id" e) e known) es

-- The items of the package by their ids: of two with one id, the later.
unfoldable pub by_id : Document → Dict Document
unfolding evidence_items
by_id pack = index_by_id [] (evidence_items pack)

abbrev pub found_in : Dict Document → Value → List Document
found_in known (str id) = elim (lookup id known) [ none ↦ [] | some e ↦ e ∷ [] ]
found_in known _ = []

-- `[by_id[ref] for ref in refs if ref in by_id]`
unfoldable pub cited_items : Dict Document → List Value → Outcome (List Document)
unfolding hashed
cited_items known [] = ok []
cited_items known (ref ∷ refs) =
    hashed ref >>= λ key. cited_items known refs >>= λ rest. ok (found_in known key ++ rest)

-- The numbers that the cited evidence counts.
unfoldable pub grounds : Reader → List Document → Outcome (List Quantity)
unfolding counted_quantities
grounds r [] = ok []
grounds r (e ∷ es) = counted_quantities r none (dict (fields e)) >>= λ first.
    grounds r es >>= λ rest. ok (first ++ rest)

abbrev below : ℤ → ℤ → Bool
below (pos m) (pos n) = ltb m n
below (negsuc m) (pos n) = true
below (pos m) (negsuc n) = false
below (negsuc m) (negsuc n) = ltb n m

insert_below : Quantity → List Quantity → List Quantity
insert_below q [] = q ∷ []
insert_below q (p ∷ ps) =
    let rest = insert_below q ps in if below (worth p) (worth q) then p ∷ rest else q ∷ p ∷ ps

-- `sorted` of the set: each number once, as it was found first.
sorted_from : List Quantity → List Quantity → List Quantity
unfolding insert_below
sorted_from seen [] = []
sorted_from seen (q ∷ qs) =
    let fresh = insert_below q (sorted_from (q ∷ seen) qs) in
    let old = sorted_from seen qs in if holds seen (worth q) then old else fresh

abbrev quantity_text : Reader → Quantity → String
quantity_text r (number n) = to_str r.rt (int n)
quantity_text r (flag b) = to_str r.rt (bool b)

abbrev quantities_text : Reader → List Quantity → String
quantities_text r qs = "[" <> (join ", " (map (quantity_text r) (sorted_from [] qs)) <> "]")

unfoldable pub ungrounded : Reader → String → List Quantity → String × String → Finding
unfolding to_str join sorted_from
ungrounded r section grounded (digits, unit) = record {
  check = "counts_are_grounded";
  detail =
      "claims "
      <> (digits <> (unit <> ("; the evidence it cites counts " <> quantities_text r grounded)));
  section_id = some section;
}

unfoldable pub judge_claims :
    Reader → String → List Quantity → List (String × String) → Outcome (List Finding)
unfolding ungrounded without_commas
judge_claims r section grounded [] = ok []
judge_claims r section grounded (claim ∷ claims) = r.parse (without_commas claim.0) >>= λ n.
    judge_claims r section grounded claims >>= λ rest.
    ok (if holds grounded n then rest else ungrounded r section grounded claim ∷ rest)

abbrev judge_grounded :
    Reader → String → List (String × String) → List Quantity → Outcome (List Finding)
judge_grounded r section claims [] = ok []
judge_grounded r section claims (q ∷ qs) = judge_claims r section (q ∷ qs) claims

-- An item whose text makes a claim is held against the evidence that it cites.
unfoldable pub item_claims :
    Reader → Dict Document → String → Document → List (String × String) → Outcome (List Finding)
unfolding iterated cited_items grounds judge_claims
item_claims r known section item [] = ok []
item_claims r known section item (claim ∷ claims) =
    iterated r (get "evidence_refs" item) >>= λ refs. cited_items known refs >>= λ cited.
    grounds r cited >>= λ grounded. judge_grounded r section (claim ∷ claims) grounded

abbrev claims_in : Reader → Value → List (String × String)
claims_in r (str text) = r.counted text
claims_in r _ = []

unfoldable pub items_claims : Reader → Dict Document → String → List Value → Outcome (List Finding)
unfolding item_claims
items_claims r known section [] = ok []
items_claims r known section (dict fs ∷ vs) =
    item_claims r known section (entries fs) (claims_in r (get "text" (entries fs))) >>= λ first.
    items_claims r known section vs >>= λ rest. ok (first ++ rest)
items_claims r known section (_ ∷ vs) = items_claims r known section vs

unfoldable pub sections_claims : Reader → Dict Document → List Document → Outcome (List Finding)
unfolding iterated items_claims
sections_claims r known [] = ok []
sections_claims r known (s ∷ ss) = iterated r (get "items" s) >>= λ items.
    items_claims r known (section_id r s) items >>= λ first.
    sections_claims r known ss >>= λ rest. ok (first ++ rest)

-- `counts_are_grounded(package, report)`
unfoldable pub counts_are_grounded : Reader → (pack report : Document) → Outcome (List Finding)
unfolding by_id sections_of sections_claims
counts_are_grounded r pack report = sections_claims r (by_id pack) (sections_of report)
