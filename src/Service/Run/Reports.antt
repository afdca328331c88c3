-- ===== src/Service/Run/Reports.antt =====
-- The report that a run of the graph ends with has passed the service's checks against the package
-- that it ends with.
use aiops_rca_orchestrator.Common.{
  ℕ, zero, suc, ◌≡◌, sym, ap, subst, ◌∙◌, ◌⊎◌, inl, inr, Option, none, some, Option-cases,
}
use aiops_rca_orchestrator.Common.Dict.{Dict}
use aiops_rca_orchestrator.Common.Value.{Value, Runtime}
use aiops_rca_orchestrator.Common.Outcome.{Outcome, ok, after, ok-injective}
use aiops_rca_orchestrator.Schema.Evidence.{EvidencePackage}
use aiops_rca_orchestrator.Schema.Report.{Report}
use aiops_rca_orchestrator.State.{InvestigationState, rebuild, bound_what_only_grows}
use aiops_rca_orchestrator.Nodes.World.{visit}
use aiops_rca_orchestrator.Nodes.Writer
use aiops_rca_orchestrator.Nodes.Writer.{Write}
use aiops_rca_orchestrator.Graph.{
  Answers, Node, resolve_hosts, establish_phenomenon, hypothesis_planner, observation_planner,
  tool_router, tool_executor, evidence_normalizer, hypothesis_updater, stop_guard,
  evidence_package_builder, report_writer, report_eval, next_node, run_node, visit_node, drive,
  route_after_report_eval,
}
use aiops_rca_orchestrator.Graph.Budget.{rebuild-eq}
use aiops_rca_orchestrator.Graph.Outputs.{
  SameReport, SameOutputs, trimmed-SameOutputs, resolve_hosts-SameReport,
  establish_phenomenon-SameReport, hypothesis_planner-SameReport, observation_planner-SameReport,
  tool_router-SameReport, tool_executor-SameReport, evidence_normalizer-SameReport,
  hypothesis_updater-SameReport, package_builder-SameReport, guard_stop-SameReport,
}
use aiops_rca_orchestrator.Graph.Drafts.{report_writer-SamePackage, report_eval-SameOutputs}
use aiops_rca_orchestrator.Service.Writer.{Draft, writer}
use aiops_rca_orchestrator.Service.Writer.Laws.{Checked, report_writer-Checked}

some-injective : (a b : Node) → some a ≡ some b → a ≡ b
some-injective a b h = cc

some_state : (a b : InvestigationState) → some a ≡ some b → a ≡ b
some_state a b h = cc

-- No report, or one that passes the checks against the package that the state holds.
unfoldable pub Sound : Dict Value → InvestigationState → Type 0
Sound output s =
    (s.report ≡ none)
    ⊎ ((pack : EvidencePackage) × (s.evidence_package ≡ some pack) × Checked pack output s)

-- What holds at a node, before and after its visit: no report up to the package.
unfoldable pub Drafted : Dict Value → Node → InvestigationState → Type 0
Drafted output report_writer s = (s.template_output ≡ some output) × Sound output s
Drafted output report_eval s = (s.template_output ≡ some output) × Sound output s
Drafted output _ s = (s.template_output ≡ some output) × (s.report ≡ none)

-- The writer of a visit is the service's, whatever the model drafts.
unfoldable pub Writes : Runtime → Answers → Type 0
Writes rt a =
    (complete : Draft → Outcome Report) × (milliseconds : ℕ) × (a.write
      ≡ writer rt complete milliseconds)

kept :
    (output : Dict Value) (s t : InvestigationState)
    → SameReport s t
    → (s.template_output ≡ some output) × (s.report ≡ none)
    → (t.template_output ≡ some output) × (t.report ≡ none)
kept output s t same d = (same.1 ∙ d.0, same.0 ∙ d.1)

pub same-Sound :
    (output : Dict Value) (s t : InvestigationState)
    → SameOutputs s t
    → Sound output s
    → Sound output t
unfolding Sound Checked
same-Sound output s t same (inl absent) = inl (same.0.0 ∙ absent)
same-Sound output s t same (inr (pack, held, (report, drafted, valid))) =
    inr (pack, same.1 ∙ held, (report, same.0.0 ∙ drafted, valid))

same-Drafted :
    (output : Dict Value) (node : Node) (s t : InvestigationState)
    → SameOutputs s t
    → Drafted output node s
    → Drafted output node t
unfolding Drafted
same-Drafted output report_writer s t same d = (same.0.1 ∙ d.0, same-Sound output s t same d.1)
same-Drafted output report_eval s t same d = (same.0.1 ∙ d.0, same-Sound output s t same d.1)
same-Drafted output resolve_hosts s t same d = kept output s t same.0 d
same-Drafted output establish_phenomenon s t same d = kept output s t same.0 d
same-Drafted output hypothesis_planner s t same d = kept output s t same.0 d
same-Drafted output observation_planner s t same d = kept output s t same.0 d
same-Drafted output tool_router s t same d = kept output s t same.0 d
same-Drafted output tool_executor s t same d = kept output s t same.0 d
same-Drafted output evidence_normalizer s t same d = kept output s t same.0 d
same-Drafted output hypothesis_updater s t same d = kept output s t same.0 d
same-Drafted output stop_guard s t same d = kept output s t same.0 d
same-Drafted output evidence_package_builder s t same d = kept output s t same.0 d

no_draft :
    (w : Write) (s : InvestigationState) (p : Option EvidencePackage) (o : Option (Dict Value))
    {t : InvestigationState}
    → p ≡ none
    → Writer.write_draft w s p o ≡ ok t
    → t.report ≡ s.report
unfolding Writer.write_draft
no_draft w s none o {t} absent h = ap (λ x. x.report) (sym (ok-injective s t h))
no_draft w s (some p) o {t} absent h = absurd (cc)

-- With no package there is nothing to write.
unwritten :
    (w : Write) (s : InvestigationState) {t : InvestigationState}
    → s.evidence_package ≡ none
    → Writer.report_writer w s ≡ ok t
    → t.report ≡ s.report
unfolding Writer.report_writer
unwritten w s {t} absent =
    after (λ x. x.report ≡ s.report) (Writer.write_draft w s s.evidence_package s.template_output) _
      (λ d e k.
        subst (λ x. x.report ≡ s.report) (ok-injective (visit "report_writer" d) t k)
          (no_draft w s s.evidence_package s.template_output absent e))

unpacked-Sound :
    (output : Dict Value) (s t : InvestigationState)
    → s.evidence_package ≡ none
    → t.report ≡ s.report
    → Sound output s
    → Sound output t
unfolding Sound
unpacked-Sound output s t absent same (inl no_report) = inl (same ∙ no_report)
unpacked-Sound output s t absent same (inr (pack, held, checked)) = absurd (cc)

written-Sound :
    (rt : Runtime) (output : Dict Value) (a : Answers) (s t : InvestigationState)
    → Writes rt a
    → (s.template_output ≡ some output) × Sound output s
    → Writer.report_writer a.write s ≡ ok t
    → (t.template_output ≡ some output) × Sound output t
unfolding Writes Sound Checked
written-Sound rt output a s t (complete, milliseconds, same) d h =
    let left = report_writer-SamePackage a.write s h in
    (
      left.1 ∙ d.0,
      elim (Option-cases s.evidence_package) [
        | inl absent ↦ unpacked-Sound output s t absent (unwritten a.write s absent h) d.1
        | inr (pack, held) ↦ inr (
          pack,
          left.0 ∙ held,
          (report_writer-Checked rt complete milliseconds s pack output held d.0
              (subst (λ w. Writer.report_writer w s ≡ ok t) same h)).0,
        )
      ],
    )

run_node-Drafted :
    (rt : Runtime) (output : Dict Value) (node : Node) (a : Answers) (s t : InvestigationState)
    → Writes rt a
    → Drafted output node s
    → run_node node a s ≡ ok t
    → Drafted output node t
unfolding run_node Drafted
run_node-Drafted rt output resolve_hosts a s t w d h =
    kept output s t (resolve_hosts-SameReport s a h) d
run_node-Drafted rt output establish_phenomenon a s t w d h =
    kept output s t (establish_phenomenon-SameReport s a h) d
run_node-Drafted rt output hypothesis_planner a s t w d h =
    kept output s t (hypothesis_planner-SameReport s a.hypotheses h) d
run_node-Drafted rt output observation_planner a s t w d h =
    kept output s t (observation_planner-SameReport s a.world a.observations h) d
run_node-Drafted rt output tool_router a s t w d h =
    kept output s t (tool_router-SameReport s a.world h) d
run_node-Drafted rt output tool_executor a s t w d h =
    kept output s t (tool_executor-SameReport s a.world h) d
run_node-Drafted rt output evidence_normalizer a s t w d h =
    kept output s t (evidence_normalizer-SameReport s a.world h) d
run_node-Drafted rt output hypothesis_updater a s t w d h =
    kept output s t (hypothesis_updater-SameReport s a.world a.update h) d
run_node-Drafted rt output stop_guard a s t w d h =
    kept output s t (subst (SameReport s) (ok-injective _ t h) (guard_stop-SameReport s a.now)) d
run_node-Drafted rt output evidence_package_builder a s t w d h =
    kept output s t (package_builder-SameReport s a h) d
run_node-Drafted rt output report_writer a s t w d h = written-Sound rt output a s t w d h
run_node-Drafted rt output report_eval a s t w d h =
    let same = report_eval-SameOutputs a.check s h in
    (same.0.1 ∙ d.0, same-Sound output s t same d.1)

visit_node-Drafted :
    (rt : Runtime) (output : Dict Value) (node : Node) (a : Answers) (s t : InvestigationState)
    → Writes rt a
    → Drafted output node s
    → visit_node node a s ≡ ok t
    → Drafted output node t
unfolding visit_node
visit_node-Drafted rt output node a s t w d = after (Drafted output node) (rebuild s) _ (λ v k ran.
    let trimmed = same-Drafted output node s (bound_what_only_grows s) (trimmed-SameOutputs s) d in
    run_node-Drafted rt output node a v t w (subst (Drafted output node) (rebuild-eq s k) trimmed)
      ran)

no_report_yet :
    (output : Dict Value) (next : Node) (t : InvestigationState)
    → (t.template_output ≡ some output) × (t.report ≡ none)
    → Drafted output next t
unfolding Drafted Sound
no_report_yet output report_writer t d = (d.0, inl d.1)
no_report_yet output report_eval t d = (d.0, inl d.1)
no_report_yet output _ t d = d

-- What holds behind a node holds at the next.
next-Drafted :
    (output : Dict Value) (node next : Node) (t : InvestigationState)
    → next_node node t ≡ some next
    → Drafted output node t
    → Drafted output next t
unfolding next_node route_after_report_eval Drafted
next-Drafted output report_writer next t e d =
    subst (λ n. Drafted output n t) (some-injective report_eval next e) d
next-Drafted output report_eval next t e d = absurd (cc)
next-Drafted output _ next t e d = no_report_yet output next t d

Drafted-Sound :
    (output : Dict Value) (node : Node) (t : InvestigationState)
    → Drafted output node t
    → Sound output t
unfolding Drafted Sound
Drafted-Sound output report_writer t d = d.1
Drafted-Sound output report_eval t d = d.1
Drafted-Sound output _ t d = inl d.1

pub drive-Sound :
    (rt : Runtime) (output : Dict Value) (fuel : ℕ) (answers : ℕ → Answers) (node : Node)
    (s last : InvestigationState)
    → ((k : ℕ) → Writes rt (answers k))
    → Drafted output node s
    → drive fuel answers node s ≡ ok (some last)
    → Sound output last
unfolding drive
drive-Sound rt output zero answers node s last w d h = absurd (cc)
drive-Sound rt output (suc fuel) answers node s last w d h =
    after (λ _. Sound output last) (visit_node node (answers fuel) s) _
      (λ t ran e.
        let after_visit = visit_node-Drafted rt output node (answers fuel) s t (w fuel) d ran in
        elim (Option-cases (next_node node t)) [
          | inl ended ↦
              subst (Sound output) (some_state t last (ok-injective _ _ (rw ended at e)))
                (Drafted-Sound output node t after_visit)
          | inr (next, onward) ↦
              drive-Sound rt output fuel answers next t last w
                (next-Drafted output node next t onward after_visit) (rw onward at e)
        ])
      h
