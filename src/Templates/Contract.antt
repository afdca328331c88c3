-- ===== src/Templates/Contract.antt =====
-- `parse_sections` and `validate_template` of services/template_contract.py.
pub mod Laws
use aiops_rca_orchestrator.Common.{
  ℕ, Bool, true, false, not, ◌&&◌, ◌||◌, Option, none, some, String, List, [], ◌∷◌, ◌++◌, leb, ◌==◌,
  ◌=ₜ◌, if◌then◌else◌,
}
use aiops_rca_orchestrator.Common.Dict.{Dict}
use aiops_rca_orchestrator.Common.Text.{◌<>◌, contains, within_optional, matches_template_id}
use aiops_rca_orchestrator.Common.Value.{
  Value, str, list, dict, Items, nil, cons, entries, get, or_else, truthy, to_str, Runtime,
}
use aiops_rca_orchestrator.Common.Outcome.{Outcome, ok, require, validation_error, ◌>>=◌, ◌>>◌}

pub record SectionContract : Type 0 where
  pub id : String
  pub heading : Option String
  pub instruction : Option String
  pub required : Bool
  pub requires_problem_event : Bool

-- `_text`
unfoldable pub text : Runtime → Value → Option String
text rt (str s) = if rt.strip s =ₜ "" then none else some s
text rt _ = none

-- `SectionContract(...)` of one member.
unfoldable pub section_contract : Runtime → Dict Value → Outcome SectionContract
unfolding text truthy to_str
section_contract rt section = do
  let id = to_str rt (or_else (get "id" section) (str ""))
  let heading = text rt (get "heading" section)
  let instruction = text rt (get "instruction" section)
  require
      (matches_template_id id
        && (within_optional 0 200 heading && within_optional 0 4000 instruction))
      (validation_error "SectionContract")
  ok (record {
    id = id;
    heading = heading;
    instruction = instruction;
    required = truthy (get "required" section);
    requires_problem_event = truthy (get "requires_problem_event" section);
  })

-- The loop over the members: what is no object is passed over.
unfoldable pub parse_members : Runtime → Items → Outcome (List SectionContract)
unfolding section_contract
parse_members rt nil = ok []
parse_members rt (cons (dict section) vs) = section_contract rt (entries section) >>= λ first.
    parse_members rt vs >>= λ others. ok (first ∷ others)
parse_members rt (cons _ vs) = parse_members rt vs

parse_value : Runtime → Value → Outcome (List SectionContract)
unfolding parse_members
parse_value rt (list vs) = parse_members rt vs
parse_value rt _ = ok []

-- `parse_sections(output)`
unfoldable pub parse_sections : Runtime → Dict Value → Outcome (List SectionContract)
unfolding parse_value
parse_sections rt output = parse_value rt (get "sections" output)

-- The loop of `validate_template`, with the ids seen so far.
unfoldable pub duplicates : List String → List SectionContract → List String
duplicates seen [] = []
duplicates seen (section ∷ sections) =
    let rest = duplicates (section.id ∷ seen) sections in
    if contains seen section.id then ("duplicate section id: " <> section.id) ∷ rest else rest

abbrev problems_of : List SectionContract → List String
problems_of [] = "template declares no sections" ∷ []
problems_of (section ∷ sections) = duplicates [] (section ∷ sections)

-- `validate_template(output)`
unfoldable pub validate_template : Runtime → Dict Value → Outcome (List String)
unfolding parse_sections duplicates
validate_template rt output = parse_sections rt output >>= λ sections. ok (problems_of sections)
