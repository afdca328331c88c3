-- ===== src/Nodes/References.antt =====
-- The references of the evidence package resolve.
use aiops_rca_orchestrator.Common.{
  ◌≡◌, refl, ap, ◌∙◌, true, ◌&&◌, List, [], ◌∷◌, map, all, arith, String,
}
use aiops_rca_orchestrator.Common.Value.{Runtime}
use aiops_rca_orchestrator.Common.Laws.{all-map}
use aiops_rca_orchestrator.Common.Outcome.{ok}
use aiops_rca_orchestrator.Common.Text.{contains}
use aiops_rca_orchestrator.Schema.Investigation.{Hypothesis}
use aiops_rca_orchestrator.Schema.Evidence.{EvidenceWindow}
use aiops_rca_orchestrator.State.{InvestigationState, validate_graph_invariants}
use aiops_rca_orchestrator.State.Validity.{unique, evidence_ids, facts_resolve, hypotheses_resolve}
use aiops_rca_orchestrator.Nodes.Package.{package_of, references_resolve, package_hypothesis}

hypotheses-eq :
    (known : List String) (hs : List Hypothesis)
    → all
        (λ h.
          all (contains known) h.supporting_evidence_refs
          && all (contains known) h.contradicting_evidence_refs)
        (map package_hypothesis hs)
      ≡ hypotheses_resolve known hs
unfolding hypotheses_resolve package_hypothesis
hypotheses-eq known [] = refl
hypotheses-eq known (h ∷ hs) =
    ap
      (λ b.
        (all (contains known) h.supporting_evidence_ids
          && all (contains known) h.counter_evidence_ids)
        && b)
      (hypotheses-eq known hs)

references-eq :
    (rt : Runtime) (s : InvestigationState) (window : EvidenceWindow)
    → references_resolve (package_of rt s window) ≡ (
        unique (evidence_ids s)
        && (facts_resolve (evidence_ids s) s.known_facts
            && hypotheses_resolve (evidence_ids s) s.hypotheses))
unfolding references_resolve package_of facts_resolve
references-eq rt s window =
    let facts =
      all-map (λ f. all (contains (evidence_ids s)) f.evidence_refs)
        (λ f. record { fact = f.fact; evidence_refs = f.evidence_ids }) s.known_facts in
    λ i. unique (evidence_ids s) && (facts i && hypotheses-eq (evidence_ids s) s.hypotheses i)

valid-references :
    (s t : InvestigationState)
    → validate_graph_invariants s ≡ ok t
    → (unique (evidence_ids s)
        && (facts_resolve (evidence_ids s) s.known_facts
            && hypotheses_resolve (evidence_ids s) s.hypotheses))
      ≡ true
unfolding validate_graph_invariants
valid-references s t h = ground arith

-- The package of a state that validates never names evidence that it does not hold.
pub package-references :
    (rt : Runtime) (s t : InvestigationState) (window : EvidenceWindow)
    → validate_graph_invariants s ≡ ok t
    → references_resolve (package_of rt s window) ≡ true
package-references rt s t window h = references-eq rt s window ∙ valid-references s t h
