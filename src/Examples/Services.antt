-- ===== src/Examples/Services.antt =====
-- The properties of the service at concrete inputs.
use aiops_rca_orchestrator.Common.{
  ◌+◌, ◌*◌, ◌≤◌, ◌≡◌, refl, arith, true, none, List, [], ◌∷◌, map, all, take, keep, length, ◌=ₜ◌,
}
use aiops_rca_orchestrator.Common.Text.{matches_template_id, within, within_optional}
use aiops_rca_orchestrator.Common.Value.{Value, str, dict, field, end}
use aiops_rca_orchestrator.Common.Outcome.{ok}
use aiops_rca_orchestrator.Schema.Investigation.{unknown_item}
use aiops_rca_orchestrator.Sources.{source_names}
use aiops_rca_orchestrator.Registry.Default.{default_tool_registry}
use aiops_rca_orchestrator.State.{InvestigationState}
use aiops_rca_orchestrator.Graph.{drive, resolve_hosts}
use aiops_rca_orchestrator.Nodes.Writer.{report_writer}
use aiops_rca_orchestrator.Service.Sections.{declares}
use aiops_rca_orchestrator.Service.Report.{
  references, dropped_events, reconcile_evidence, limitations,
}
use aiops_rca_orchestrator.Service.Report.Events.{reconcile_evidence-cites}
use aiops_rca_orchestrator.Service.Clarify.{actionable, line, clarification_lines}
use aiops_rca_orchestrator.Service.Clarify.Laws.{clarification_lines-lead}
use aiops_rca_orchestrator.Service.Examples.{without_examples}
use aiops_rca_orchestrator.Service.Examples.Laws.{
  free, Step, key, plain_path, at, shorn, without_examples-free,
}
use aiops_rca_orchestrator.Service.Catalog.{Catalog, load_tool_catalog}
use aiops_rca_orchestrator.Service.Catalog.Laws.{offered, silent, load_tool_catalog-total}
use aiops_rca_orchestrator.Service.Writer.{writer}
use aiops_rca_orchestrator.Service.Writer.Laws.{Checked, report_writer-Checked}
use aiops_rca_orchestrator.Service.Run.Start.{start}
use aiops_rca_orchestrator.Service.Run.{investigate}
use aiops_rca_orchestrator.Service.Run.Laws.{Answers, investigate-Answers}
use aiops_rca_orchestrator.Service.Run.Begin.{start-ends}
use aiops_rca_orchestrator.Service.Run.Response.{completed, needs_clarification}
use aiops_rca_orchestrator.Service.Run.Reports.{Writes}
use aiops_rca_orchestrator.Service.Run.Delivered.{Delivered, investigate-Delivered}
use aiops_rca_orchestrator.Examples.Samples.{rt, answers}
use aiops_rca_orchestrator.Examples.Requests.{
  api, delivering, service, parsed, template, unsettled, draft, pack, reporting,
}
use aiops_rca_orchestrator.Examples.Results.{is_ok, value, value-eq}

delivered : is_ok (investigate delivering api) ≡ true
unfolding is_ok investigate ◌=ₜ◌ within unknown_item within_optional writer matches_template_id
delivered = refl

-- The response is a completed one.
delivered-completed : (value (investigate delivering api) delivered).status ≡ completed
unfolding is_ok value delivered investigate ◌=ₜ◌ within unknown_item within_optional writer
    matches_template_id
delivered-completed = refl

investigate-Answers_example : Answers delivering api (value (investigate delivering api) delivered)
investigate-Answers_example =
    investigate-Answers delivering api (value-eq (investigate delivering api) delivered)

-- With no host the response asks back.
asked_back : is_ok (investigate service api) ≡ true
unfolding is_ok investigate ◌=ₜ◌ within unknown_item within_optional
asked_back = refl

asked_back-needs_clarification :
    (value (investigate service api) asked_back).status ≡ needs_clarification
unfolding is_ok value asked_back investigate ◌=ₜ◌ within unknown_item within_optional
asked_back-needs_clarification = refl

investigate-Delivered_example : Delivered (value (investigate delivering api) delivered)
unfolding Writes
investigate-Delivered_example =
    investigate-Delivered delivering api (λ k. ((λ d. ok (draft [])), 9, refl))
      (value-eq (investigate delivering api) delivered)

begun : is_ok (start service api parsed (template, none)) ≡ true
unfolding is_ok start ◌=ₜ◌ within unknown_item within_optional
begun = refl

unfoldable first : InvestigationState
unfolding value
first = value (start service api parsed (template, none)) begun

start-ends_example :
    ¬ (drive (10 + 6 * first.limits.max_iterations) (λ k. answers) resolve_hosts first ≡ ok none)
unfolding first
start-ends_example =
    start-ends service api parsed (template, none) first (λ k. answers)
      (value-eq (start service api parsed (template, none)) begun)

load_tool_catalog-total_example :
    (t : Catalog) × (load_tool_catalog rt default_tool_registry service.listing ≡ ok t)
    × (all (offered default_tool_registry) t.0 ≡ true)
    × (length t.1 ≡ silent service.listing source_names)
load_tool_catalog-total_example = load_tool_catalog-total rt default_tool_registry service.listing

clarification_lines-lead_example :
    take (length (take 20 (keep actionable unsettled))) (clarification_lines unsettled)
    ≡ map line (take 20 (keep actionable unsettled))
clarification_lines-lead_example = clarification_lines-lead unsettled

abbrev schema : Value
schema =
    dict (field "host" (dict (field "examples" (str "web-1") (field "type" (str "text") end))) end)

abbrev host_type : List Step
host_type = key "host" ∷ key "type" ∷ []

plain_host_type : plain_path host_type ≡ true
unfolding ◌=ₜ◌
plain_host_type = refl

without_examples-free_example :
    (free (without_examples schema) ≡ true)
    × (without_examples (without_examples schema) ≡ without_examples schema)
    × (at host_type (without_examples schema) ≡ shorn (at host_type schema))
without_examples-free_example = without_examples-free schema host_type plain_host_type

declared_limits : declares limitations template.output ≡ ok true
unfolding declares ◌=ₜ◌
declared_limits = refl

few_dropped : length (dropped_events (references (draft []).sections) pack.evidence) ≤ 20
unfolding dropped_events ◌=ₜ◌
few_dropped = omega arith

reconciled : is_ok (reconcile_evidence (draft []) template.output pack.evidence) ≡ true
unfolding is_ok reconcile_evidence ◌=ₜ◌
reconciled = refl

reconcile_evidence-cites_example :
    dropped_events
      (references
        (value (reconcile_evidence (draft []) template.output pack.evidence) reconciled).sections)
      pack.evidence
    ≡ []
reconcile_evidence-cites_example =
    reconcile_evidence-cites (draft [])
      (value (reconcile_evidence (draft []) template.output pack.evidence) reconciled)
      template.output pack.evidence declared_limits few_dropped
      (value-eq (reconcile_evidence (draft []) template.output pack.evidence) reconciled)

stored : is_ok (report_writer (writer rt (λ d. ok (draft ("zbx:event:1" ∷ []))) 9) reporting) ≡ true
unfolding is_ok report_writer writer ◌=ₜ◌ matches_template_id within_optional
stored = refl

report_writer-Checked_example :
    Checked pack template.output
      (value (report_writer (writer rt (λ d. ok (draft ("zbx:event:1" ∷ []))) 9) reporting) stored)
    × ((value
          (report_writer (writer rt (λ d. ok (draft ("zbx:event:1" ∷ []))) 9) reporting)
          stored).report_attempts
        ≡ 1)
report_writer-Checked_example =
    report_writer-Checked rt (λ d. ok (draft ("zbx:event:1" ∷ []))) 9 reporting pack template.output
      refl refl
      (value-eq (report_writer (writer rt (λ d. ok (draft ("zbx:event:1" ∷ []))) 9) reporting)
        stored)
