-- ===== src/Nodes/Writer.antt =====
-- `ReportWriterNode` and `ReportEvalNode` of graph/report_nodes.py. Writing a draft and checking it
-- are arguments.
use aiops_rca_orchestrator.Common.{
  ℕ, suc, ◌+◌, Option, none, some, String, List, [], ◌∷◌, ◌++◌, map, ◌=ₜ◌, if◌then◌else◌,
}
use aiops_rca_orchestrator.Common.Text.{◌<>◌}
use aiops_rca_orchestrator.Common.Dict.{Dict}
use aiops_rca_orchestrator.Common.Value.{Value}
use aiops_rca_orchestrator.Common.Outcome.{Outcome, ok, traverse, ◌>>=◌}
use aiops_rca_orchestrator.Schema.Investigation.{unknown_item}
use aiops_rca_orchestrator.Schema.Evidence.{EvidencePackage}
use aiops_rca_orchestrator.Schema.Report.{Report}
use aiops_rca_orchestrator.State.{InvestigationState}
use aiops_rca_orchestrator.Nodes.World.{visit}

pub record Finding : Type 0 where
  pub check : String
  pub detail : String
  pub section_id : Option String

-- `self.write(parsed=..., package=..., template_output=..., findings=...)` and the milliseconds.
abbrev pub Write : Type 0
Write = InvestigationState → EvidencePackage → Dict Value → Outcome (Report × ℕ)

abbrev pub Check : Type 0
Check = EvidencePackage → Report → Dict Value → Outcome (List Finding)

unfoldable pub write_draft :
    Write
    → InvestigationState
    → Option EvidencePackage
    → Option (Dict Value)
    → Outcome InvestigationState
write_draft write state none template = ok state
write_draft write state (some pack) none = ok state
write_draft write state (some pack) (some template) = write state pack template >>= λ draft.
    ok (record state {
      report = some draft.0;
      report_attempts = suc state.report_attempts;
      report_duration_ms = state.report_duration_ms + draft.1;
      report_findings = [];
    })

-- `ReportWriterNode.__call__`
unfoldable pub report_writer : Write → InvestigationState → Outcome InvestigationState
unfolding write_draft
report_writer write state =
    write_draft write state state.evidence_package state.template_output >>= λ next.
    ok (visit "report_writer" next)

abbrev section_text : Option String → String
section_text none = "report"
section_text (some s) = if s =ₜ "" then "report" else s

unfoldable pub finding_text : Finding → String
finding_text f = f.check <> (" (" <> (section_text f.section_id <> ("): " <> f.detail)))

abbrev pub template_or_empty : Option (Dict Value) → Dict Value
template_or_empty none = []
template_or_empty (some template) = template

unfoldable pub record_findings : InvestigationState → List Finding → Outcome InvestigationState
unfolding finding_text
record_findings state [] = ok (record state { report_findings = [] })
record_findings state (f ∷ fs) =
    let detail = map finding_text (f ∷ fs) in
    traverse (λ message. unknown_item "report_check_failed" message none none) detail
    >>= λ unknowns. ok (record state {
      report_rejections = state.report_rejections ++ detail;
      report_findings = detail;
      unknowns = state.unknowns ++ unknowns;
    })

unfoldable pub eval_draft :
    Check → InvestigationState → Option Report → Option EvidencePackage → Outcome InvestigationState
unfolding record_findings
eval_draft check state none pack = ok state
eval_draft check state (some report) none = ok state
eval_draft check state (some report) (some pack) =
    check pack report (template_or_empty state.template_output) >>= λ found.
    record_findings state found

-- `ReportEvalNode.__call__`
unfoldable pub report_eval : Check → InvestigationState → Outcome InvestigationState
unfolding eval_draft
report_eval check state = eval_draft check state state.report state.evidence_package >>= λ next.
    ok (visit "report_eval" next)
