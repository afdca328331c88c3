-- ===== src/State/Trim.antt =====
-- `bound_what_only_grows` of graph/state.py.
use aiops_rca_orchestrator.Common.{
  ℕ, Bool, not, ◌||◌, none, String, List, [], ◌∷◌, ◌++◌, ltb, ◌=ₜ◌, if◌then◌else◌, length, take,
  keep,
}
use aiops_rca_orchestrator.Common.Text.{◌<>◌, join, decimal}
use aiops_rca_orchestrator.Schema.Investigation.{UnknownItem}
use aiops_rca_orchestrator.State.Defs.{InvestigationState}

abbrev pub unknowns_capacity : ℕ
unknowns_capacity = 100

abbrev pub known_facts_capacity : ℕ
known_facts_capacity = 100

abbrev pub capacity_notice : String
capacity_notice = "state_capacity_reached"

-- `_is_notice`
unfoldable pub is_notice : UnknownItem → Bool
is_notice item = item.code =ₜ capacity_notice

-- The unknowns that are no notice.
unfoldable pub findings : List UnknownItem → List UnknownItem
unfolding is_notice
findings unknowns = keep (λ item. not (is_notice item)) unknowns

unfoldable pub over_unknowns : InvestigationState → Bool
unfolding findings
over_unknowns state = ltb 99 (length (findings state.unknowns))

unfoldable pub over_facts : InvestigationState → Bool
over_facts state = ltb known_facts_capacity (length state.known_facts)

-- The texts of `full`.
abbrev pub full_lists : Bool → Bool → List String
full_lists unknowns facts =
    (if unknowns then "unknowns" ∷ [] else []) ++ (if facts then "confirmed facts" ∷ [] else [])

unfoldable pub notice : List String → UnknownItem
notice full = record {
  code = capacity_notice;
  message =
      "the investigation reached the "
      <> (decimal unknowns_capacity
          <> (" entries this state holds of "
              <> (join " and " full
                  <> "; later ones were not recorded, so the report covers only what is kept here")));
  host_query = none;
  tool_call_id = none;
}

-- `bound_what_only_grows`
unfoldable pub bound_what_only_grows : InvestigationState → InvestigationState
unfolding over_unknowns over_facts findings notice
bound_what_only_grows state =
    if over_unknowns state || over_facts state
    then record state {
      known_facts = take known_facts_capacity state.known_facts;
      unknowns =
          take 99 (findings state.unknowns)
          ++ notice (full_lists (over_unknowns state) (over_facts state)) ∷ [];
    }
    else state
