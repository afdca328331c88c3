-- ===== src/Service/Sections.antt =====
-- The sections of a template's `output`, as `_validate_report` and `_reconcile_evidence` of
-- services/investigation.py read them.
use aiops_rca_orchestrator.Common.{
  Bool, true, false, Option, none, some, String, List, [], ◌∷◌, ◌=ₜ◌, if◌then◌else◌,
}
use aiops_rca_orchestrator.Common.Dict.{Dict, lookup}
use aiops_rca_orchestrator.Common.Value.{Value, str, list, dict, end, items, entries, get}
use aiops_rca_orchestrator.Common.Outcome.{
  Outcome, Exception, ok, raised, type_error, failure, plain, ◌>>=◌, traverse,
}

abbrev pub no_get : Exception
no_get = failure (plain "AttributeError" "object has no attribute 'get'")

-- The members of `output.get("sections", [])`; a text or an object has members without `get`.
unfoldable pub members : Option Value → Outcome (List Value)
members none = ok []
members (some (list vs)) = ok (items vs)
members (some (str s)) = if s =ₜ "" then ok [] else raised no_get
members (some (dict end)) = ok []
members (some (dict fs)) = raised no_get
members (some _) = raised (type_error "object is not iterable")

-- `item.get("id")`
unfoldable pub id_of : Value → Outcome Value
id_of (dict section) = ok (get "id" (entries section))
id_of _ = raised no_get

-- A member of a set: a list or an object has no hash.
unfoldable pub hashed : Value → Outcome Value
hashed (list ids) = raised (type_error "unhashable type")
hashed (dict ids) = raised (type_error "unhashable type")
hashed v = ok v

unfoldable pub hashed_id : Value → Outcome Value
unfolding id_of hashed
hashed_id v = id_of v >>= λ id. hashed id

-- `{item.get("id") for item in output.get("sections", [])}`
unfoldable pub declared_ids : Dict Value → Outcome (List Value)
unfolding members hashed_id
declared_ids output = members (lookup "sections" output) >>= λ sections. traverse hashed_id sections

-- `value == text`
abbrev pub is_text : String → Value → Bool
is_text t (str s) = s =ₜ t
is_text t _ = false

-- Whether some member has this id, as far as the members are read to find it.
unfoldable pub finds : String → List Value → Outcome Bool
unfolding id_of
finds t [] = ok false
finds t (v ∷ vs) = id_of v >>= λ id. if is_text t id then ok true else finds t vs

-- Whether the template declares a section for the limitations.
unfoldable pub declares : String → Dict Value → Outcome Bool
unfolding members finds
declares t output = members (lookup "sections" output) >>= λ sections. finds t sections
