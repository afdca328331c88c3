-- ===== src/Checks/Documents.antt =====
-- The reading of the documents in evals/properties.py: sections, texts, and what the code takes from
-- Python's `re`.
use aiops_rca_orchestrator.Common.{String, List, [], ◌∷◌, ◌++◌, map, ◌=ₜ◌, if◌then◌else◌}
use aiops_rca_orchestrator.Common.Dict.{Dict, keys}
use aiops_rca_orchestrator.Common.Value.{
  Value, null, str, list, dict, items, entries, get, truthy, to_str, ℤ, Runtime,
}
use aiops_rca_orchestrator.Common.Outcome.{Outcome, ok, raised, type_error}

-- What the code takes from the interpreter: what `findall` returns for each of the three patterns
-- `_COUNTED`, `_EMBEDDED_COUNT` and `\d{1,9}`, `int` of a text, and the characters of a text.
pub record Reader : Type 0 where
  pub rt : Runtime
  pub counted : String → List (String × String)
  pub embedded : String → List (String × String)
  pub digits : String → List String
  pub parse : String → Outcome ℤ
  pub characters : String → List String

abbrev pub Document : Type 0
Document = Dict Value

-- `[item for item in values if isinstance(item, Mapping)]`
abbrev pub mappings : List Value → List Document
mappings [] = []
mappings (dict fs ∷ vs) = entries fs ∷ mappings vs
mappings (_ ∷ vs) = mappings vs

-- The mappings of a value that is a list, and none of any other.
abbrev pub listed : Value → List Document
listed (list vs) = mappings (items vs)
listed _ = []

-- `_sections(report)`
unfoldable pub sections_of : Document → List Document
sections_of report = listed (get "sections" report)

-- `_evidence_items(package)`
unfoldable pub evidence_items : Document → List Document
evidence_items pack = listed (get "evidence" pack)

-- What a `for` loop over `value or []` runs over.
unfoldable pub iterated : Reader → Value → Outcome (List Value)
unfolding truthy
iterated r null = ok []
iterated r (list vs) = ok (items vs)
iterated r (dict fs) = ok (map str (keys (entries fs)))
iterated r (str s) = ok (map str (r.characters s))
iterated r v = if truthy v then raised (type_error "object is not iterable") else ok []

abbrev text_of : Value → List String
text_of (str s) = s ∷ []
text_of _ = []

abbrev body_of : Value → List String
body_of (str s) = if s =ₜ "" then [] else s ∷ []
body_of _ = []

abbrev pub item_texts : List Document → List String
item_texts [] = []
item_texts (item ∷ rest) = text_of (get "text" item) ++ item_texts rest

-- `_texts(section)`
unfoldable pub texts : Document → List String
texts section = body_of (get "body" section) ++ item_texts (listed (get "items" section))

-- `str(section.get("id"))`
abbrev pub section_id : Reader → Document → String
section_id r section = to_str r.rt (get "id" section)

-- `f"{value!r}"`
abbrev pub shown : Reader → Value → String
shown r (str s) = r.rt.repr s
shown r v = to_str r.rt v
