-- ===== src/Service/Run/Laws.antt =====
-- What a response promises, whatever the model, the tools and the clock answer.
use aiops_rca_orchestrator.Common.{
  ◌≤◌, ◌≡◌, refl, sym, subst, true, ◌⊎◌, inl, inr, Option, none, some, ◌=ₜ◌, length,
}
use aiops_rca_orchestrator.Common.Outcome.{ok, after, ok-injective}
use aiops_rca_orchestrator.Schema.Investigation.{ParsedRequest, ParseStatus}
use aiops_rca_orchestrator.Schema.Evidence.{EvidencePackage}
use aiops_rca_orchestrator.Schema.Report.{Report}
use aiops_rca_orchestrator.State.{InvestigationState}
use aiops_rca_orchestrator.Templates.Select.{ReportTemplate, Selected, select_template}
use aiops_rca_orchestrator.Templates.Select.Laws.{Offers}
use aiops_rca_orchestrator.Service.Clarify.Laws.{clarification_lines-fit}
use aiops_rca_orchestrator.Service.Models.{model_for, collector_models}
use aiops_rca_orchestrator.Service.Analyze.{InvestigationApiRequest, analyze}
use aiops_rca_orchestrator.Service.Analyze.Laws.{AsAsked, Short, analyze-Short, analyze-AsAsked}
use aiops_rca_orchestrator.Service.Run.Response.{
  Status, question_analyzer, evidence_collector, rca_writer, analyzed, written, AgentRun, agent_run,
  InvestigationTrace, InvestigationApiResponse,
}
use aiops_rca_orchestrator.Service.Run.Start.{Service, start}
use aiops_rca_orchestrator.Service.Run.Finish.{collect, conclude, answered, respond, run_output}
use aiops_rca_orchestrator.Service.Run.{by_status, investigate}

-- What a response of a status holds.
pub Promised : Status → InvestigationApiResponse → Type 0
Promised Status.completed r =
    ((pack : EvidencePackage) × (r.evidence_package ≡ some pack))
    × ((report : Report) × (r.report ≡ some report))
    × ((trace : InvestigationTrace) × (r.trace ≡ some trace))
    × (length r.agent_runs ≡ 3)
Promised Status.needs_clarification r =
    (r.evidence_package ≡ none)
    × (r.report ≡ none)
    × (r.parsed_request.parse_status ≡ ParseStatus.needs_clarification)
    × Short r.parsed_request.ambiguities
    × (((r.trace ≡ none) × (length r.agent_runs ≡ 1))
        ⊎ ((1 ≤ length r.parsed_request.ambiguities) × (length r.agent_runs ≡ 2)))
Promised Status.unsupported r =
    (r.evidence_package ≡ none)
    × (r.report ≡ none)
    × (r.parsed_request.parse_status ≡ ParseStatus.unsupported)
    × (r.trace ≡ none)
    × (length r.agent_runs ≡ 1)

-- A response that keeps the promise of its status, to this request and of this template.
pub Kept : Service → ParsedRequest → ReportTemplate → InvestigationApiResponse → Type 0
Kept svc parsed template r =
    (r.investigation_id ≡ svc.investigation_id)
    × (r.parsed_request.request_id ≡ parsed.request_id)
    × (r.parsed_request.request_type ≡ parsed.request_type)
    × (r.template ≡ template)
    × Promised r.status r

answered-Kept :
    (svc : Service) (parsed : ParsedRequest) (template : ReportTemplate) (first second : AgentRun)
    (finished : InvestigationState) (pack : EvidencePackage) (report : Option Report)
    {r : InvestigationApiResponse}
    → answered svc parsed template first second finished pack report ≡ ok r
    → Kept svc parsed template r
unfolding answered Kept Promised
answered-Kept svc parsed template first second finished pack none h = absurd (cc)
answered-Kept svc parsed template first second finished pack (some report) {r} h =
    let P = Kept svc parsed template in
    after P (model_for svc.settings "report_writer") _
      (λ model a.
        after P
          (agent_run rca_writer model finished.report_duration_ms
            (written finished.report_attempts finished.report_rejections report))
          _
          (λ third b c.
            subst P (ok-injective _ r c)
              (refl, refl, refl, refl, ((pack, refl), (report, refl), (_, refl), refl))))
      h

respond-Kept :
    (svc : Service) (parsed : ParsedRequest) (template : ReportTemplate) (first second : AgentRun)
    (finished : InvestigationState) (o : Option EvidencePackage) {r : InvestigationApiResponse}
    → respond svc parsed template first second finished o ≡ ok r
    → Kept svc parsed template r
unfolding respond Kept Promised Short
respond-Kept svc parsed template first second finished none {r} h =
    let (some_line, few, short) = clarification_lines-fit finished.unknowns in
    subst (Kept svc parsed template) (ok-injective _ r h)
      (refl, refl, refl, refl, (refl, refl, refl, (few, short), inr (some_line, refl)))
respond-Kept svc parsed template first second finished (some pack) h =
    answered-Kept svc parsed template first second finished pack finished.report h

conclude-Kept :
    (svc : Service) (parsed : ParsedRequest) (template : ReportTemplate) (first : AgentRun)
    (finished : InvestigationState) {r : InvestigationApiResponse}
    → conclude svc parsed template first finished ≡ ok r
    → Kept svc parsed template r
unfolding conclude
conclude-Kept svc parsed template first finished =
    let P = Kept svc parsed template in
    after P (collector_models svc.settings) _ (λ models a.
      after P
        (agent_run evidence_collector models svc.collector_ms
          (run_output finished finished.evidence_package))
        _
        (λ second b.
          respond-Kept svc parsed template first second finished finished.evidence_package))

by_status-Kept :
    (svc : Service) (api : InvestigationApiRequest) (parsed : ParsedRequest) (selected : Selected)
    (run : AgentRun) (status : ParseStatus) {r : InvestigationApiResponse}
    → Short parsed.ambiguities
    → parsed.parse_status ≡ status
    → by_status svc api parsed selected run status ≡ ok r
    → Kept svc parsed selected.0 r
unfolding by_status Kept Promised
by_status-Kept svc api parsed selected run ParseStatus.ready {r} lines e h =
    let P = Kept svc parsed selected.0 in
    after P (start svc api parsed selected) _
      (λ state a.
        after P (collect svc state) _
          (λ finished b. conclude-Kept svc parsed selected.0 run finished))
      h
by_status-Kept svc api parsed selected run ParseStatus.needs_clarification {r} lines e h =
    subst (Kept svc parsed selected.0) (ok-injective _ r h)
      (refl, refl, refl, refl, (refl, refl, e, lines, inl (refl, refl)))
by_status-Kept svc api parsed selected run ParseStatus.unsupported {r} lines e h =
    subst (Kept svc parsed selected.0) (ok-injective _ r h)
      (refl, refl, refl, refl, (refl, refl, e, refl, refl))

-- A response to this request: it carries the request's id and a template of the request, an enabled
-- one of the kind that the analyzer named, and keeps the promise of its status.
pub Answers : Service → InvestigationApiRequest → InvestigationApiResponse → Type 0
Answers svc api r =
    (r.investigation_id ≡ svc.investigation_id)
    × ((r.parsed_request.request_id =ₜ api.request.request_id) ≡ true)
    × Offers r.parsed_request.request_type api.templates r.template
    × Promised r.status r

Kept-Answers :
    (svc : Service) (api : InvestigationApiRequest) (parsed : ParsedRequest) (choice : Selected)
    (r : InvestigationApiResponse)
    → ((parsed.request_id =ₜ api.request.request_id) ≡ true)
      × AsAsked parsed.request_type api.templates choice
    → Kept svc parsed choice.0 r
    → Answers svc api r
unfolding Kept Answers AsAsked
Kept-Answers svc api parsed choice r (mine, (offered, told)) (inv, id, kind, template, promised) = (
  inv,
  subst (λ i. (i =ₜ api.request.request_id) ≡ true) (sym id) mine,
  subst (λ k. Offers k api.templates r.template) (sym kind)
      (subst (Offers parsed.request_type api.templates) (sym template) offered),
  promised,
)

-- Whenever `investigate` returns, its response is to this request, and its template is an enabled one
-- of the kind that the analyzer named. A completed response holds a package, a report, a trace and
-- three runs. One that asks back holds neither package nor report and at most 20 lines of at most 500
-- characters; it comes from the analyzer alone, with one run and no trace, or from a collection, with
-- two runs and at least one line. An unsupported one holds no package, report or trace, and one run.
pub investigate-Answers :
    (svc : Service) (api : InvestigationApiRequest) {r : InvestigationApiResponse}
    → investigate svc api ≡ ok r
    → Answers svc api r
unfolding investigate
investigate-Answers svc api {r} =
    let P = Answers svc api in
    after P (model_for svc.settings "question_analyzer") _ (λ model a.
      after P (analyze svc.analyzer api) _ (λ parsed b.
        after P (agent_run question_analyzer model svc.analyzer_ms (analyzed parsed)) _ (λ run c.
          after P (select_template parsed.request_type api.templates) _ (λ choice d e.
            Kept-Answers svc api parsed choice r
              (analyze-AsAsked svc.analyzer api parsed choice b d)
              (by_status-Kept svc api parsed choice run parsed.parse_status
                (analyze-Short svc.analyzer api parsed b) refl e)))))
