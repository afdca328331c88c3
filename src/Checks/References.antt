-- ===== src/Checks/References.antt =====
-- `evidence_refs_resolve` of evals/properties.py.
pub mod Laws
use aiops_rca_orchestrator.Common.{
  Bool, true, false, some, String, List, [], ◌∷◌, ◌++◌, ◌=ₜ◌, if◌then◌else◌,
}
use aiops_rca_orchestrator.Common.Text.{◌<>◌, contains}
use aiops_rca_orchestrator.Common.Value.{Value, str, dict, entries, get}
use aiops_rca_orchestrator.Common.Outcome.{Outcome, ok, ◌>>=◌}
use aiops_rca_orchestrator.Nodes.Writer.{Finding}
use aiops_rca_orchestrator.Service.Sections.{hashed}
use aiops_rca_orchestrator.Checks.Documents.{
  Reader, Document, sections_of, evidence_items, iterated, section_id, shown,
}

abbrev id_text : Value → List String
id_text (str s) = s ∷ []
id_text _ = []

abbrev pub ids_of : List Document → List String
ids_of [] = []
ids_of (e ∷ es) = id_text (get "evidence_id" e) ++ ids_of es

-- The ids that the package holds.
unfoldable pub known_ids : Document → List String
unfolding evidence_items
known_ids pack = ids_of (evidence_items pack)

abbrev pub is_known : List String → Value → Bool
is_known known (str s) = contains known s
is_known known _ = false

abbrev pub absent : Reader → String → String → Value → Finding
absent r section name ref = record {
  check = "evidence_refs_resolve";
  detail = name <> (" names " <> (shown r ref <> ", absent from the package"));
  section_id = some section;
}

unfoldable pub refs_check :
    Reader → List String → String → String → List Value → Outcome (List Finding)
unfolding hashed
refs_check r known section name [] = ok []
refs_check r known section name (ref ∷ refs) = hashed ref >>= λ key.
    refs_check r known section name refs >>= λ rest.
    ok (if is_known known key then rest else absent r section name ref ∷ rest)

unfoldable pub field_check :
    Reader → List String → String → Document → String → Outcome (List Finding)
unfolding iterated refs_check
field_check r known section item name =
    iterated r (get name item) >>= λ refs. refs_check r known section name refs

-- Both fields of an item.
unfoldable pub item_check : Reader → List String → String → Document → Outcome (List Finding)
unfolding field_check
item_check r known section item = field_check r known section item "evidence_refs" >>= λ cited.
    field_check r known section item "counter_evidence_refs" >>= λ countered.
    ok (cited ++ countered)

-- What is no mapping is passed over.
unfoldable pub items_check : Reader → List String → String → List Value → Outcome (List Finding)
unfolding item_check
items_check r known section [] = ok []
items_check r known section (dict fs ∷ vs) = item_check r known section (entries fs) >>= λ first.
    items_check r known section vs >>= λ rest. ok (first ++ rest)
items_check r known section (_ ∷ vs) = items_check r known section vs

unfoldable pub sections_check : Reader → List String → List Document → Outcome (List Finding)
unfolding iterated items_check
sections_check r known [] = ok []
sections_check r known (section ∷ sections) = iterated r (get "items" section) >>= λ items.
    items_check r known (section_id r section) items >>= λ found.
    sections_check r known sections >>= λ rest. ok (found ++ rest)

-- `evidence_refs_resolve(package, report)`
unfoldable pub evidence_refs_resolve : Reader → (pack report : Document) → Outcome (List Finding)
unfolding known_ids sections_of sections_check
evidence_refs_resolve r pack report = sections_check r (known_ids pack) (sections_of report)
