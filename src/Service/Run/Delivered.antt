-- ===== src/Service/Run/Delivered.antt =====
-- The report of a response has passed the service's checks against the package of the response.
use aiops_rca_orchestrator.Common.{
  ℕ, ◌≡◌, refl, sym, ap, subst, ◌∙◌, ◌⊎◌, inl, inr, Option, none, some,
}
use aiops_rca_orchestrator.Common.Outcome.{ok, after, ok-injective, ◌>>=◌}
use aiops_rca_orchestrator.Schema.Investigation.{ParsedRequest, ParseStatus}
use aiops_rca_orchestrator.Schema.Evidence.{EvidencePackage}
use aiops_rca_orchestrator.Schema.Report.{Report}
use aiops_rca_orchestrator.State.{InvestigationState, rebuild, bound_what_only_grows}
use aiops_rca_orchestrator.Graph.{resolve_hosts, drive}
use aiops_rca_orchestrator.Graph.Budget.{rebuild-eq}
use aiops_rca_orchestrator.Graph.Outputs.{trimmed-SameOutputs}
use aiops_rca_orchestrator.Templates.Select.{ReportTemplate, Selected, select_template}
use aiops_rca_orchestrator.Templates.Limits.{prepare_collection}
use aiops_rca_orchestrator.Service.Catalog.{load_tool_catalog}
use aiops_rca_orchestrator.Service.Models.{model_for, collector_models}
use aiops_rca_orchestrator.Service.Analyze.{InvestigationApiRequest, analyze}
use aiops_rca_orchestrator.Service.Report.{validate_report}
use aiops_rca_orchestrator.Service.Writer.Laws.{Checked}
use aiops_rca_orchestrator.Service.Run.Response.{
  question_analyzer, evidence_collector, rca_writer, analyzed, written, AgentRun, agent_run,
  InvestigationApiResponse,
}
use aiops_rca_orchestrator.Service.Run.Start.{Service, first_state, start}
use aiops_rca_orchestrator.Service.Run.Finish.{
  recursion_limit, ended, collect, conclude, answered, respond, run_output,
}
use aiops_rca_orchestrator.Service.Run.{by_status, investigate}
use aiops_rca_orchestrator.Service.Run.Reports.{Sound, Drafted, Writes, same-Sound, drive-Sound}

-- A response without a report, or with one that passes `_validate_report` against the package and the
-- template that the response holds.
pub Delivered : InvestigationApiResponse → Type 0
Delivered r =
    (r.report ≡ none)
    ⊎ ((pack : EvidencePackage) × (report : Report) × (r.evidence_package ≡ some pack)
        × (r.report ≡ some report)
        × (validate_report report r.template.output pack.evidence ≡ ok tt))

some_package : (a b : EvidencePackage) → some a ≡ some b → a ≡ b
some_package a b h = cc

some_report : (a b : Report) → some a ≡ some b → a ≡ b
some_report a b h = cc

started-Drafted :
    (svc : Service) (api : InvestigationApiRequest) (parsed : ParsedRequest) (choice : Selected)
    {s : InvestigationState}
    → start svc api parsed choice ≡ ok s
    → Drafted choice.0.output resolve_hosts s
unfolding start first_state Drafted
started-Drafted svc api parsed choice {s} =
    let P = Drafted choice.0.output resolve_hosts in
    after P
      (prepare_collection svc.rt (svc.zone parsed.timezone) svc.parse svc.instant choice.0 parsed
        api.request)
      _
      (λ prepared a. after P (load_tool_catalog svc.rt svc.registry svc.listing) _ (λ catalog b c.
        let fresh = first_state svc api parsed choice prepared.0 prepared.1 catalog in
        let same = trimmed-SameOutputs fresh in subst P (rebuild-eq fresh c) (same.0.1, same.0.0)))

ended-Sound :
    (svc : Service) (choice : Selected) (s : InvestigationState) (o : Option InvestigationState)
    {finished : InvestigationState}
    → ((last : InvestigationState) → o ≡ some last → Sound choice.0.output last)
    → (ended o >>= λ last. rebuild last) ≡ ok finished
    → Sound choice.0.output finished
unfolding ended
ended-Sound svc choice s none {finished} sound h = absurd (cc)
ended-Sound svc choice s (some last) {finished} sound h =
    subst (Sound choice.0.output) (rebuild-eq last h) (
      same-Sound choice.0.output last (bound_what_only_grows last) (trimmed-SameOutputs last)
        (sound last refl))

collect-Sound :
    (svc : Service) (choice : Selected) (s : InvestigationState) {finished : InvestigationState}
    → ((k : ℕ) → Writes svc.rt (svc.answers k))
    → Drafted choice.0.output resolve_hosts s
    → collect svc s ≡ ok finished
    → Sound choice.0.output finished
unfolding collect
collect-Sound svc choice s w d =
    after (Sound choice.0.output) (drive (recursion_limit s) svc.answers resolve_hosts s) _
      (λ o ran. ended-Sound svc choice s o (λ last e.
        drive-Sound svc.rt choice.0.output (recursion_limit s) svc.answers resolve_hosts s last w d
          (ran ∙ ap ok e)))

Sound-valid :
    (template : ReportTemplate) (finished : InvestigationState) (pack : EvidencePackage)
    (report : Report)
    → Sound template.output finished
    → finished.evidence_package ≡ some pack
    → finished.report ≡ some report
    → validate_report report template.output pack.evidence ≡ ok tt
unfolding Sound Checked
Sound-valid template finished pack report (inl absent) held drafted = absurd (cc)
Sound-valid template finished pack report (inr (p, held2, (q, drafted2, valid))) held drafted =
    subst (λ x. validate_report report template.output x.evidence ≡ ok tt)
      (some_package p pack (sym held2 ∙ held))
      (subst (λ x. validate_report x template.output p.evidence ≡ ok tt)
        (some_report q report (sym drafted2 ∙ drafted)) valid)

answered-Delivered :
    (svc : Service) (parsed : ParsedRequest) (template : ReportTemplate) (first second : AgentRun)
    (finished : InvestigationState) (pack : EvidencePackage) (o : Option Report)
    {r : InvestigationApiResponse}
    → Sound template.output finished
    → finished.evidence_package ≡ some pack
    → finished.report ≡ o
    → answered svc parsed template first second finished pack o ≡ ok r
    → Delivered r
unfolding answered Delivered
answered-Delivered svc parsed template first second finished pack none sound held drafted h =
    absurd (cc)
answered-Delivered svc parsed template first second finished pack (some report) {r} sound held
      drafted h =
    after Delivered (model_for svc.settings "report_writer") _
      (λ model a.
        after Delivered
          (agent_run rca_writer model finished.report_duration_ms
            (written finished.report_attempts finished.report_rejections report))
          _
          (λ third b c. subst Delivered (ok-injective _ r c) (
            inr (
              pack,
              report,
              refl,
              refl,
              Sound-valid template finished pack report sound held drafted,
            ))))
      h

respond-Delivered :
    (svc : Service) (parsed : ParsedRequest) (template : ReportTemplate) (first second : AgentRun)
    (finished : InvestigationState) (o : Option EvidencePackage) {r : InvestigationApiResponse}
    → Sound template.output finished
    → finished.evidence_package ≡ o
    → respond svc parsed template first second finished o ≡ ok r
    → Delivered r
unfolding respond Delivered
respond-Delivered svc parsed template first second finished none {r} sound held h =
    subst Delivered (ok-injective _ r h) (inl refl)
respond-Delivered svc parsed template first second finished (some pack) sound held h =
    answered-Delivered svc parsed template first second finished pack finished.report sound held
      refl h

conclude-Delivered :
    (svc : Service) (parsed : ParsedRequest) (template : ReportTemplate) (first : AgentRun)
    (finished : InvestigationState) {r : InvestigationApiResponse}
    → Sound template.output finished
    → conclude svc parsed template first finished ≡ ok r
    → Delivered r
unfolding conclude
conclude-Delivered svc parsed template first finished sound =
    after Delivered (collector_models svc.settings) _ (λ models a.
      after Delivered
        (agent_run evidence_collector models svc.collector_ms
          (run_output finished finished.evidence_package))
        _
        (λ second b.
          respond-Delivered svc parsed template first second finished finished.evidence_package
            sound refl))

by_status-Delivered :
    (svc : Service) (api : InvestigationApiRequest) (parsed : ParsedRequest) (choice : Selected)
    (run : AgentRun) (status : ParseStatus) {r : InvestigationApiResponse}
    → ((k : ℕ) → Writes svc.rt (svc.answers k))
    → by_status svc api parsed choice run status ≡ ok r
    → Delivered r
unfolding by_status Delivered
by_status-Delivered svc api parsed choice run ParseStatus.ready {r} w h =
    after Delivered (start svc api parsed choice) _
      (λ s a. after Delivered (collect svc s) _ (λ finished b.
        conclude-Delivered svc parsed choice.0 run finished
          (collect-Sound svc choice s w (started-Drafted svc api parsed choice a) b)))
      h
by_status-Delivered svc api parsed choice run ParseStatus.needs_clarification {r} w h =
    subst Delivered (ok-injective _ r h) (inl refl)
by_status-Delivered svc api parsed choice run ParseStatus.unsupported {r} w h =
    subst Delivered (ok-injective _ r h) (inl refl)

-- If the report node of every visit writes with the service's `write_report`, then whatever the model
-- drafts, at whatever attempt, a response of `investigate` that holds a report holds a package too,
-- and its report passes `_validate_report` against that package and the template that it names: no
-- section is there twice or undeclared, and no reference leads outside the package.
pub investigate-Delivered :
    (svc : Service) (api : InvestigationApiRequest) {r : InvestigationApiResponse}
    → ((k : ℕ) → Writes svc.rt (svc.answers k))
    → investigate svc api ≡ ok r
    → Delivered r
unfolding investigate
investigate-Delivered svc api w =
    after Delivered (model_for svc.settings "question_analyzer") _ (λ model a.
      after Delivered (analyze svc.analyzer api) _ (λ parsed b.
        after Delivered (agent_run question_analyzer model svc.analyzer_ms (analyzed parsed)) _
          (λ run c.
            after Delivered (select_template parsed.request_type api.templates) _
              (λ choice d. by_status-Delivered svc api parsed choice run parsed.parse_status w))))
