-- ===== src/Service/Writer.antt =====
-- `_writer_sections` and `write_report` of services/investigation.py, and the writer that the
-- report node is given.
pub mod Laws
use aiops_rca_orchestrator.Common.{
  ℕ, Bool, not, ◌&&◌, ◌||◌, Option, none, some, String, List, [], ◌∷◌, any, keep, is_some, map,
}
use aiops_rca_orchestrator.Common.Dict.{Dict, lookup}
use aiops_rca_orchestrator.Common.Text.{starts_with}
use aiops_rca_orchestrator.Common.Value.{Value, str, Runtime}
use aiops_rca_orchestrator.Common.Outcome.{Outcome, ok, ◌>>=◌}
use aiops_rca_orchestrator.Schema.Investigation.{ParsedRequest}
use aiops_rca_orchestrator.Schema.Evidence.{Evidence, EvidencePackage}
use aiops_rca_orchestrator.Schema.Report.{Report}
use aiops_rca_orchestrator.State.{InvestigationState}
use aiops_rca_orchestrator.Nodes.Writer.{Write}
use aiops_rca_orchestrator.Templates.Contract.{SectionContract, parse_sections}
use aiops_rca_orchestrator.Service.Report.{checked_report}

unfoldable pub is_problem_event : Evidence → Bool
is_problem_event e = starts_with "zbx:event:" e.evidence_id && is_some e.resource_ids.event_id

-- A section as the writer is told of it.
pub record WriterSection : Type 0 where
  pub id : String
  pub required : Bool
  pub heading : Option String
  pub instruction : Option String

abbrev pub writer_section : SectionContract → WriterSection
writer_section section = record {
  id = section.id;
  required = section.required;
  heading = section.heading;
  instruction = section.instruction;
}

-- `_writer_sections(output, package)`, where the package holds `evidence`.
unfoldable pub writer_sections : Runtime → Dict Value → List Evidence → Outcome (List WriterSection)
unfolding parse_sections is_problem_event
writer_sections rt output evidence = parse_sections rt output >>= λ sections. ok (
    map writer_section
      (keep (λ s. not s.requires_problem_event || any is_problem_event evidence) sections))

-- `template_output.get("guidance", "")`
abbrev guidance : Dict Value → Value
guidance output = elim (lookup "guidance" output) [ none ↦ str "" | some v ↦ v ]

-- The payload of the writer.
pub record Draft : Type 0 where
  pub parsed_request : ParsedRequest
  pub evidence_package : EvidencePackage
  pub report_guidance : Value
  pub sections : List WriterSection
  pub rejected_previous_draft : List String

-- `write_report(model, ...)`; `complete` is the model's answer.
unfoldable pub write_report :
    Runtime
    → (Draft → Outcome Report)
    → ParsedRequest
    → EvidencePackage
    → Dict Value
    → List String
    → Outcome Report
unfolding writer_sections checked_report
write_report rt complete parsed pack output findings = do
  sections ← writer_sections rt output pack.evidence
  draft ← complete (record {
    parsed_request = parsed;
    evidence_package = pack;
    report_guidance = guidance output;
    sections = sections;
    rejected_previous_draft = findings;
  })
  checked_report draft output pack.evidence

-- The writer of the report node, with the milliseconds that it took.
unfoldable pub writer : Runtime → (Draft → Outcome Report) → ℕ → Write
unfolding write_report
writer rt complete milliseconds state pack output =
    write_report rt complete state.parsed_request pack output state.report_findings >>= λ report.
    ok (report, milliseconds)
