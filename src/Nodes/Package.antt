-- ===== src/Nodes/Package.antt =====
-- `EvidencePackageBuilderNode` of graph/live_nodes.py, and the bounds and references that
-- `EvidencePackage.model_validate` of schemas/evidence_package.py checks.
use aiops_rca_orchestrator.Common.{
  Bool, ◌&&◌, Option, none, some, String, List, [], map, max, leb, length, is_empty, all,
  if◌then◌else◌,
}
use aiops_rca_orchestrator.Common.Text.{within, contains}
use aiops_rca_orchestrator.Common.Dict.{lookup}
use aiops_rca_orchestrator.Common.Value.{str, get, or_else, truthy, to_str, Runtime}
use aiops_rca_orchestrator.Common.Outcome.{Outcome, ok, require, validation_error, ◌>>=◌, ◌>>◌}
use aiops_rca_orchestrator.Schema.Investigation.{
  Moment, Hypothesis, HypothesisStatus, supported, rejected, active, unresolved,
  ToolExecutionStatus, ToolExecutionResult,
}
use aiops_rca_orchestrator.Schema.Evidence.{
  EvidenceWindow, CallRecordStatus, success, failed, ToolCallRecord, Confidence, high, medium, low,
  PackageHypothesis, InvestigationRecord, EvidencePackage,
}
use aiops_rca_orchestrator.State.{InvestigationState}
use aiops_rca_orchestrator.State.Validity.{unique}
use aiops_rca_orchestrator.Nodes.World.{World, visit, text_or, resolved_window}

-- `_package_call_status`
unfoldable pub package_call_status : ToolExecutionStatus → CallRecordStatus
package_call_status ToolExecutionStatus.error = failed
package_call_status ToolExecutionStatus.partial = CallRecordStatus.partial
package_call_status ToolExecutionStatus.filtered_empty = CallRecordStatus.partial
package_call_status ToolExecutionStatus.ok = success
package_call_status ToolExecutionStatus.empty = success

confidence_of : HypothesisStatus → List String → List String → Confidence
confidence_of supported supporting counter = if is_empty counter then high else medium
confidence_of rejected supporting counter = low
confidence_of active supporting counter = if is_empty supporting then low else medium
confidence_of unresolved supporting counter = if is_empty supporting then low else medium

-- `_confidence`
unfoldable pub confidence : Hypothesis → Confidence
unfolding confidence_of
confidence h = confidence_of h.status h.supporting_evidence_ids h.counter_evidence_ids

unfoldable pub call_record : InvestigationState → ToolExecutionResult → ToolCallRecord
unfolding package_call_status
call_record state result = record {
  tool_call_id = result.tool_call_id;
  tool_name = result.tool_name;
  purpose = elim (lookup result.tool_call_id state.tool_call_purposes) [
    | none ↦ "Collect investigation evidence"
    | some purpose ↦ purpose
  ];
  status = package_call_status result.status;
}

unfoldable pub package_hypothesis : Hypothesis → PackageHypothesis
unfolding confidence
package_hypothesis h = record {
  description = h.statement;
  supporting_evidence_refs = h.supporting_evidence_ids;
  contradicting_evidence_refs = h.counter_evidence_ids;
  confidence = confidence h;
}

abbrev anchor : InvestigationState → Option Moment → Moment
anchor state none = state.request.received_at
anchor state (some moment) = moment

-- The payload of the package.
unfoldable pub package_of : Runtime → InvestigationState → EvidenceWindow → EvidencePackage
unfolding to_str truthy call_record package_hypothesis
package_of rt state window = record {
  request = record {
    request_id = state.request.request_id;
    original_question = state.parsed_request.original_question;
    requested_by =
        to_str rt (or_else (get "user_id" state.request.metadata) (str state.request.source));
  };
  query_context = record {
    hosts = map (λ h. record { host = h.host; host_id = h.host_id }) state.hosts;
    timezone = state.parsed_request.timezone;
    anchor_time = anchor state state.parsed_request.anchor_time;
  };
  investigation = record {
    initial_window = window;
    final_window = window;
    iterations = max 1 state.iteration_count;
    tool_calls = map (call_record state) state.tool_results;
    expansion_reasons = [];
    stop_reason = text_or state.stop_reason "investigation completed";
    limit_reached = state.limit_reached;
  };
  observed_failure_mode = text_or state.phenomenon state.parsed_request.incident_description;
  evidence = state.evidence;
  confirmed_facts =
      map (λ f. record { fact = f.fact; evidence_refs = f.evidence_ids }) state.known_facts;
  hypotheses = map package_hypothesis state.hypotheses;
  unknowns = map (λ u. u.message) state.unknowns;
}

abbrev pub package_ids : EvidencePackage → List String
package_ids pack = map (λ e. e.evidence_id) pack.evidence

unfoldable call_fits : ToolCallRecord → Bool
unfolding within
call_fits call =
    within 1 200 call.tool_call_id && (within 1 100 call.tool_name && within 1 1000 call.purpose)

-- `OptionalEvidenceRefs`
unfoldable refs_fit : List String → Bool
unfolding within
refs_fit refs = leb (length refs) 50 && all (within 1 300) refs

-- The bounds of `EvidenceRequest` and `QueryContext`.
unfoldable context_fits : EvidencePackage → Bool
unfolding within
context_fits pack =
    within 1 200 pack.request.request_id
    && (within 1 5000 pack.request.original_question
        && (within 1 200 pack.request.requested_by
            && (leb 1 (length pack.query_context.hosts)
                && (leb (length pack.query_context.hosts) 20
                    && (all (λ h. within 1 255 h.host) pack.query_context.hosts
                        && within 1 100 pack.query_context.timezone)))))

-- The bounds of `InvestigationRecord`.
unfoldable record_fits : InvestigationRecord → Bool
unfolding within call_fits
record_fits investigation =
    leb 1 investigation.iterations
    && (leb investigation.iterations 20
        && (leb (length investigation.tool_calls) 100
            && (all call_fits investigation.tool_calls
                && (leb (length investigation.expansion_reasons) 20
                    && (all (within 1 1000) investigation.expansion_reasons
                        && within 1 2000 investigation.stop_reason)))))

-- The bounds of the findings: what was observed, the facts, the hypotheses and the unknowns.
unfoldable findings_fit : EvidencePackage → Bool
unfolding within refs_fit
findings_fit pack =
    within 1 2000 pack.observed_failure_mode
    && (leb (length pack.evidence) 200
        && (leb (length pack.confirmed_facts) 100
            && (all
                  (λ f.
                    within 1 2000 f.fact
                    && (leb 1 (length f.evidence_refs) && refs_fit f.evidence_refs))
                  pack.confirmed_facts
                && (leb (length pack.hypotheses) 20
                    && (all
                          (λ h.
                            within 1 2000 h.description
                            && (refs_fit h.supporting_evidence_refs
                                && refs_fit h.contradicting_evidence_refs))
                          pack.hypotheses
                        && (leb (length pack.unknowns) 100
                            && all (within 1 2000) pack.unknowns))))))

-- The bounds of the package's own fields. The items of evidence and the ids of the hosts were
-- validated when they were made.
unfoldable pub package_fits : EvidencePackage → Bool
unfolding context_fits record_fits findings_fit
package_fits pack = context_fits pack && (record_fits pack.investigation && findings_fit pack)

-- `require_unique_and_valid_references`
unfoldable pub references_resolve : EvidencePackage → Bool
unfolding unique
references_resolve pack =
    unique (package_ids pack)
    && (all (λ f. all (contains (package_ids pack)) f.evidence_refs) pack.confirmed_facts
        && all
            (λ h.
              all (contains (package_ids pack)) h.supporting_evidence_refs
              && all (contains (package_ids pack)) h.contradicting_evidence_refs)
            pack.hypotheses)

-- `EvidencePackage.model_validate(payload)`. `window_valid` is the reading of a window's two
-- timestamps and the test of their order.
unfoldable pub validate_package :
    (EvidenceWindow → Bool) → EvidencePackage → Outcome EvidencePackage
unfolding package_fits references_resolve
validate_package window_valid pack = do
  require (window_valid pack.investigation.initial_window) (validation_error "EvidenceWindow")
  require (package_fits pack) (validation_error "EvidencePackage")
  require (references_resolve pack) (validation_error "evidence references do not exist")
  ok pack

-- `EvidencePackageBuilderNode.__call__`
unfoldable pub evidence_package_builder :
    World → (EvidenceWindow → Bool) → InvestigationState → Outcome InvestigationState
unfolding package_of validate_package resolved_window to_str
evidence_package_builder w window_valid state =
    if is_empty state.hosts
    then ok (visit "evidence_package_builder" (record state { evidence_package = none }))
    else (resolved_window state >>= λ window.
        validate_package window_valid (
          package_of w.rt state (record {
            from = str (to_str w.rt window.0);
            to = str (to_str w.rt window.1);
            aggregation = get "aggregation" state.collection;
          }))
        >>= λ pack.
            ok (visit "evidence_package_builder" (record state { evidence_package = some pack })))
