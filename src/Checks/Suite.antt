-- ===== src/Checks/Suite.antt =====
-- `CHECKS` and `check_report` of evals/properties.py.
use aiops_rca_orchestrator.Common.{List, [], ◌∷◌, ◌++◌}
use aiops_rca_orchestrator.Common.Outcome.{Outcome, ok, ◌>>=◌}
use aiops_rca_orchestrator.Schema.Evidence.{EvidencePackage}
use aiops_rca_orchestrator.Nodes.Writer
use aiops_rca_orchestrator.Nodes.Writer.{Finding}
use aiops_rca_orchestrator.Checks.Dumped.{report_document}
use aiops_rca_orchestrator.Checks.Documents.{Reader, Document}
use aiops_rca_orchestrator.Checks.References.{evidence_refs_resolve}
use aiops_rca_orchestrator.Checks.Claims.{counts_are_grounded}
use aiops_rca_orchestrator.Checks.Omission.{omission_is_disclosed}
use aiops_rca_orchestrator.Checks.Limits.{
  unknowns_reach_limitations, required_sections_are_answered, unsupported_cause_is_admitted,
}

-- A check reads the package, the report and the template.
abbrev pub Check : Type 0
Check = (pack report template : Document) → Outcome (List Finding)

unfoldable pub checks : Reader → List Check
unfolding evidence_refs_resolve counts_are_grounded omission_is_disclosed unknowns_reach_limitations
    required_sections_are_answered unsupported_cause_is_admitted
checks r =
    (λ p s t. evidence_refs_resolve r p s)
    ∷ (λ p s t. counts_are_grounded r p s)
    ∷ (λ p s t. omission_is_disclosed r p s)
    ∷ (λ p s t. ok (unknowns_reach_limitations r p s))
    ∷ (λ p s t. ok (required_sections_are_answered r s t))
    ∷ (λ p s t. unsupported_cause_is_admitted r p s)
    ∷ []

unfoldable pub run_checks : List Check → (pack report template : Document) → Outcome (List Finding)
run_checks [] pack report template = ok []
run_checks (check ∷ rest) pack report template = check pack report template >>= λ first.
    run_checks rest pack report template >>= λ others. ok (first ++ others)

-- `check_report(package, report, template)` with the checks of `CHECKS`.
unfoldable pub check_report : Reader → (pack report template : Document) → Outcome (List Finding)
unfolding checks run_checks
check_report r pack report template = run_checks (checks r) pack report template

-- The check of `ReportEvalNode` of graph/report_nodes.py; `dump` is the package's `model_dump`.
unfoldable pub report_check : Reader → (dump : EvidencePackage → Document) → Writer.Check
unfolding check_report report_document
report_check r dump pack report template =
    check_report r (dump pack) (report_document report) template
