-- ===== src/Graph/Drafts.antt =====
-- What the report nodes leave alone.
use aiops_rca_orchestrator.Common.{◌≡◌, refl, subst, Option, none, some, List, [], ◌∷◌, map}
use aiops_rca_orchestrator.Common.Dict.{Dict}
use aiops_rca_orchestrator.Common.Value.{Value}
use aiops_rca_orchestrator.Common.Outcome.{ok, ok-injective, after, traverse}
use aiops_rca_orchestrator.State.{InvestigationState}
use aiops_rca_orchestrator.Schema.Investigation.{unknown_item}
use aiops_rca_orchestrator.Schema.Evidence.{EvidencePackage}
use aiops_rca_orchestrator.Schema.Report.{Report}
use aiops_rca_orchestrator.Nodes.World.{visit}
use aiops_rca_orchestrator.Nodes.Writer.{
  Write, Check, Finding, finding_text, template_or_empty, write_draft, report_writer,
  record_findings, eval_draft, report_eval,
}
use aiops_rca_orchestrator.Graph.Outputs.{SameOutputs}

-- The package and the template's output are those of `s`.
abbrev pub SamePackage : InvestigationState → InvestigationState → Type 0
SamePackage s t =
    (t.evidence_package ≡ s.evidence_package) × (t.template_output ≡ s.template_output)

write_draft-SamePackage :
    (w : Write) (s : InvestigationState) (p : Option EvidencePackage) (o : Option (Dict Value))
    {t : InvestigationState}
    → write_draft w s p o ≡ ok t
    → SamePackage s t
unfolding write_draft
write_draft-SamePackage w s none o {t} h = subst (SamePackage s) (ok-injective s t h) (refl, refl)
write_draft-SamePackage w s (some p) none {t} h =
    subst (SamePackage s) (ok-injective s t h) (refl, refl)
write_draft-SamePackage w s (some p) (some o) {t} h =
    after (SamePackage s) (w s p o) _
      (λ d e k. subst (SamePackage s) (ok-injective _ t k) (refl, refl)) h

pub report_writer-SamePackage :
    (w : Write) (s : InvestigationState) {t : InvestigationState}
    → report_writer w s ≡ ok t
    → SamePackage s t
unfolding report_writer
report_writer-SamePackage w s {t} =
    after (SamePackage s) (write_draft w s s.evidence_package s.template_output) _ (λ d e k.
      subst (SamePackage s) (ok-injective (visit "report_writer" d) t k)
        (write_draft-SamePackage w s s.evidence_package s.template_output e))

record_findings-SameOutputs :
    (s : InvestigationState) (fs : List Finding) {t : InvestigationState}
    → record_findings s fs ≡ ok t
    → SameOutputs s t
unfolding record_findings
record_findings-SameOutputs s [] {t} h =
    subst (SameOutputs s) (ok-injective _ t h) ((refl, refl), refl)
record_findings-SameOutputs s (f ∷ fs) {t} h =
    after (SameOutputs s)
      (traverse (λ message. unknown_item "report_check_failed" message none none)
        (map finding_text (f ∷ fs)))
      _ (λ d e k. subst (SameOutputs s) (ok-injective _ t k) ((refl, refl), refl)) h

eval_draft-SameOutputs :
    (c : Check) (s : InvestigationState) (r : Option Report) (p : Option EvidencePackage)
    {t : InvestigationState}
    → eval_draft c s r p ≡ ok t
    → SameOutputs s t
unfolding eval_draft
eval_draft-SameOutputs c s none p {t} h =
    subst (SameOutputs s) (ok-injective s t h) ((refl, refl), refl)
eval_draft-SameOutputs c s (some r) none {t} h =
    subst (SameOutputs s) (ok-injective s t h) ((refl, refl), refl)
eval_draft-SameOutputs c s (some r) (some p) {t} h =
    after (SameOutputs s) (c p r (template_or_empty s.template_output)) _
      (λ fs e k. record_findings-SameOutputs s fs k) h

pub report_eval-SameOutputs :
    (c : Check) (s : InvestigationState) {t : InvestigationState}
    → report_eval c s ≡ ok t
    → SameOutputs s t
unfolding report_eval
report_eval-SameOutputs c s {t} =
    after (SameOutputs s) (eval_draft c s s.report s.evidence_package) _ (λ d e k.
      subst (SameOutputs s) (ok-injective (visit "report_eval" d) t k)
        (eval_draft-SameOutputs c s s.report s.evidence_package e))
