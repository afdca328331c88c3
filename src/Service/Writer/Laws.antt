-- ===== src/Service/Writer/Laws.antt =====
-- What the report node stores has passed the service's checks.
use aiops_rca_orchestrator.Common.{ℕ, suc, ◌≡◌, refl, subst, some, String, List}
use aiops_rca_orchestrator.Common.Dict.{Dict}
use aiops_rca_orchestrator.Common.Value.{Value, Runtime}
use aiops_rca_orchestrator.Common.Outcome.{Outcome, ok, ◌>>=◌, after, ok-injective}
use aiops_rca_orchestrator.Schema.Investigation.{ParsedRequest}
use aiops_rca_orchestrator.Schema.Evidence.{EvidencePackage}
use aiops_rca_orchestrator.Schema.Report.{Report}
use aiops_rca_orchestrator.State.{InvestigationState}
use aiops_rca_orchestrator.Nodes.World.{visit}
use aiops_rca_orchestrator.Nodes.Writer.{write_draft, report_writer}
use aiops_rca_orchestrator.Service.Report.{validate_report}
use aiops_rca_orchestrator.Service.Report.Valid.{checked_report-valid}
use aiops_rca_orchestrator.Service.Writer.{Draft, writer_sections, write_report, writer}

-- The report that the state holds passes the service's checks against this package.
unfoldable pub Checked : EvidencePackage → Dict Value → InvestigationState → Type 0
Checked pack output state =
    (report : Report) × (state.report ≡ some report)
    × (validate_report report output pack.evidence ≡ ok tt)

write_report-valid :
    (rt : Runtime) (complete : Draft → Outcome Report) (parsed : ParsedRequest)
    (pack : EvidencePackage) (output : Dict Value) (findings : List String) {report : Report}
    → write_report rt complete parsed pack output findings ≡ ok report
    → validate_report report output pack.evidence ≡ ok tt
unfolding write_report
write_report-valid rt complete parsed pack output findings =
    after (λ r. validate_report r output pack.evidence ≡ ok tt)
      (writer_sections rt output pack.evidence) _
      (λ sections a.
        after (λ r. validate_report r output pack.evidence ≡ ok tt) (complete _) _
          (λ draft b c. checked_report-valid draft _ output pack.evidence c))

timed-valid :
    (rt : Runtime) (complete : Draft → Outcome Report) (milliseconds : ℕ)
    (state : InvestigationState) (pack : EvidencePackage) (output : Dict Value) {draft : Report × ℕ}
    → writer rt complete milliseconds state pack output ≡ ok draft
    → validate_report draft.0 output pack.evidence ≡ ok tt
unfolding writer
timed-valid rt complete milliseconds state pack output {draft} =
    let P : Report × ℕ → Type 0 = λ d. validate_report d.0 output pack.evidence ≡ ok tt in
    after P (write_report rt complete state.parsed_request pack output state.report_findings) _
      (λ report a b.
        subst P (ok-injective (report, milliseconds) draft b)
          (write_report-valid rt complete state.parsed_request pack output state.report_findings a))

written-Checked :
    (rt : Runtime) (complete : Draft → Outcome Report) (milliseconds : ℕ)
    (state : InvestigationState) (pack : EvidencePackage) (output : Dict Value)
    {next : InvestigationState}
    → (write_draft (writer rt complete milliseconds) state (some pack) (some output) >>= λ t.
        ok (visit "report_writer" t))
      ≡ ok next
    → Checked pack output next × (next.report_attempts ≡ suc state.report_attempts)
unfolding write_draft writer Checked
written-Checked rt complete milliseconds state pack output {next} =
    let P : InvestigationState → Type 0 =
      λ t. Checked pack output t × (t.report_attempts ≡ suc state.report_attempts) in
    after P (write_draft (writer rt complete milliseconds) state (some pack) (some output)) _
      (λ t a b. subst P (ok-injective _ next b) (
        after P (writer rt complete milliseconds state pack output) _
          (λ draft c d.
            subst P (ok-injective _ t d)
              ((draft.0, refl, timed-valid rt complete milliseconds state pack output c), refl))
          a))

-- If the state holds a package and a template's output, then whatever the model drafts, a report node
-- that returns stores a report that passes `_validate_report` against that package and output, and
-- counts one more attempt.
pub report_writer-Checked :
    (rt : Runtime) (complete : Draft → Outcome Report) (milliseconds : ℕ)
    (state : InvestigationState) (pack : EvidencePackage) (output : Dict Value)
    {next : InvestigationState}
    → state.evidence_package ≡ some pack
    → state.template_output ≡ some output
    → report_writer (writer rt complete milliseconds) state ≡ ok next
    → Checked pack output next × (next.report_attempts ≡ suc state.report_attempts)
unfolding report_writer writer Checked
report_writer-Checked rt complete milliseconds state pack output {next} held known h =
    let w = writer rt complete milliseconds in
    let packed =
      subst
        (λ e.
          (write_draft w state e state.template_output >>= λ t. ok (visit "report_writer" t))
          ≡ ok next)
        held h in
    written-Checked rt complete milliseconds state pack output (
      subst
        (λ e. (write_draft w state (some pack) e >>= λ t. ok (visit "report_writer" t)) ≡ ok next)
        known packed)
