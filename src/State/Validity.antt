-- ===== src/State/Validity.antt =====
-- The declared bounds of the lists and counters of `InvestigationState`, and
-- `validate_graph_invariants` of graph/state.py.
use aiops_rca_orchestrator.Common.{
  Bool, not, true, ◌&&◌, ◌||◌, Option, none, some, String, List, [], ◌∷◌, map, leb, ◌==◌, ◌=ₜ◌,
  length, all,
}
use aiops_rca_orchestrator.Common.Text.{contains, within, within_optional}
use aiops_rca_orchestrator.Common.Dict.{values}
use aiops_rca_orchestrator.Common.Outcome.{Outcome, ok, require, validation_error, ◌>>◌}
use aiops_rca_orchestrator.Schema.Investigation.{
  KnownFact, Hypothesis, ObservationQuestion, PlannedToolCall,
}
use aiops_rca_orchestrator.State.Defs.{InvestigationState}
use aiops_rca_orchestrator.State.Trim.{bound_what_only_grows}

-- `_unique`
unfoldable pub unique : List String → Bool
unique [] = true
unique (s ∷ ss) = not (contains ss s) && unique ss

abbrev pub host_names : InvestigationState → List String
host_names state = map (λ h. h.host) state.hosts

abbrev pub hypothesis_ids : InvestigationState → List String
hypothesis_ids state = map (λ h. h.id) state.hypotheses

abbrev pub evidence_ids : InvestigationState → List String
evidence_ids state = map (λ e. e.evidence_id) state.evidence

-- Every reference of a fact or a hypothesis is among `known`.
unfoldable pub facts_resolve : List String → List KnownFact → Bool
facts_resolve known facts = all (λ f. all (contains known) f.evidence_ids) facts

unfoldable pub hypotheses_resolve : List String → List Hypothesis → Bool
hypotheses_resolve known hypotheses =
    all
      (λ h.
        all (contains known) h.supporting_evidence_ids
        && all (contains known) h.counter_evidence_ids)
      hypotheses

host_resolved : List String → Option String → Bool
host_resolved known none = true
host_resolved known (some host) = host =ₜ "" || contains known host

unfoldable pub calls_resolve : List String → List String → List PlannedToolCall → Bool
unfolding host_resolved
calls_resolve hypotheses hosts calls =
    all (λ c. all (contains hypotheses) c.target_hypothesis_ids && host_resolved hosts c.host) calls

unfoldable pub questions_resolve : List String → List ObservationQuestion → Bool
questions_resolve hypotheses questions =
    all (λ q. all (contains hypotheses) q.discriminates_hypothesis_ids) questions

-- The bounds of the fields that are texts.
unfoldable texts_fit : InvestigationState → Bool
unfolding within within_optional
texts_fit state =
    within 1 200 state.investigation_id
    && (within_optional 0 2000 state.phenomenon
        && (all (within 0 1000) (values state.tool_call_purposes)
            && (within_optional 1 2000 state.stop_reason
                && within_optional 1 10000 state.fatal_error)))

-- The bounds of the lists and the counters.
unfoldable lists_fit : InvestigationState → Bool
lists_fit state =
    leb (length state.hosts) 20
    && (leb (length state.unresolved_hosts) 20
        && (leb (length state.hypotheses) 20
            && (leb (length state.known_facts) 100
                && (leb (length state.unknowns) 100
                    && (leb (length state.next_questions) 8
                        && (leb (length state.planned_tool_calls) 8
                            && (leb (length state.evidence) 200
                                && (leb (length state.last_observations) 8
                                    && (leb (length state.tool_results) 100
                                        && (leb (length state.tool_errors) 100
                                            && (leb state.iteration_count 20
                                                && (leb state.tool_call_count 100
                                                    && (leb (length state.report_findings) 50
                                                        && (leb (length state.report_rejections) 100
                                                            && (leb state.report_attempts 10
                                                            && (leb
                                                            (length state.routing_rejections) 20
                                                            && leb state.routing_attempts
                                                            10))))))))))))))))

-- The `min_length`, `max_length` and `le` of the fields.
unfoldable pub fields_fit : InvestigationState → Bool
unfolding texts_fit lists_fit
fields_fit state = texts_fit state && lists_fit state

-- `validate_graph_invariants`
unfoldable pub validate_graph_invariants : InvestigationState → Outcome InvestigationState
unfolding unique facts_resolve hypotheses_resolve questions_resolve calls_resolve
validate_graph_invariants state = do
  require (unique (host_names state)) (validation_error "host values must be unique")
  require (unique (hypothesis_ids state)) (validation_error "hypothesis id values must be unique")
  require (unique (evidence_ids state)) (validation_error "evidence_id values must be unique")
  require (unique (map (λ r. r.tool_call_id) state.tool_results))
      (validation_error "tool_call_id values must be unique")
  require
      (facts_resolve (evidence_ids state) state.known_facts
        && hypotheses_resolve (evidence_ids state) state.hypotheses)
      (validation_error "known_facts reference unknown evidence")
  require (questions_resolve (hypothesis_ids state) state.next_questions)
      (validation_error "next_questions reference unknown hypotheses")
  require (calls_resolve (hypothesis_ids state) (host_names state) state.planned_tool_calls)
      (validation_error "planned_tool_calls reference unknown hypotheses or hosts")
  require (state.tool_call_count == length state.tool_results)
      (validation_error "tool_call_count must equal the number of tool_results")
  ok state

-- Building the state anew, as happens at every node.
unfoldable pub rebuild : InvestigationState → Outcome InvestigationState
unfolding bound_what_only_grows fields_fit validate_graph_invariants
rebuild state = do
  let bounded = bound_what_only_grows state
  require (fields_fit bounded) (validation_error "InvestigationState")
  validate_graph_invariants bounded
