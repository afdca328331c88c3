-- ===== src/Graph/Outputs.antt =====
-- What the nodes leave alone of the report, the package and the template.
use aiops_rca_orchestrator.Common.{◌≡◌, refl, subst, is_empty, arith, []}
use aiops_rca_orchestrator.Common.Outcome.{ok, ok-injective, after, returned, either}
use aiops_rca_orchestrator.State.{InvestigationState, bound_what_only_grows}
use aiops_rca_orchestrator.Schema.Investigation.{Moment}
use aiops_rca_orchestrator.Schema.Decisions.{
  HypothesisPlan, ObservationDecision, HypothesisUpdateDecision,
}
use aiops_rca_orchestrator.Nodes.World.{World, visit}
use aiops_rca_orchestrator.Nodes.Hosts
use aiops_rca_orchestrator.Nodes.Phenomenon
use aiops_rca_orchestrator.Nodes.Hypotheses
use aiops_rca_orchestrator.Nodes.Planner
use aiops_rca_orchestrator.Nodes.Router
use aiops_rca_orchestrator.Nodes.Executor
use aiops_rca_orchestrator.Nodes.Evidence
use aiops_rca_orchestrator.Nodes.Updater
use aiops_rca_orchestrator.Nodes.Package
use aiops_rca_orchestrator.Graph.Routing.{guard_stop}
use aiops_rca_orchestrator.Graph.Topology.{Answers}

-- The report and the template's output are those of `s`.
abbrev pub SameReport : InvestigationState → InvestigationState → Type 0
SameReport s t = (t.report ≡ s.report) × (t.template_output ≡ s.template_output)

-- So is the package.
abbrev pub SameOutputs : InvestigationState → InvestigationState → Type 0
SameOutputs s t = SameReport s t × (t.evidence_package ≡ s.evidence_package)

pub trimmed-SameOutputs : (s : InvestigationState) → SameOutputs s (bound_what_only_grows s)
unfolding bound_what_only_grows
trimmed-SameOutputs s = ground arith

module _ (s : InvestigationState) {t : InvestigationState} where
  pub resolve_hosts-SameReport :
      (a : Answers) → Hosts.resolve_hosts a.world a.ask_hosts s ≡ ok t → SameReport s t
  unfolding Hosts.resolve_hosts
  resolve_hosts-SameReport a h =
      after (SameReport s) (Hosts.search a.world s s.parsed_request.host_queries a.ask_hosts) _
        (λ found _ k. ground arith) h

  pub establish_phenomenon-SameReport :
      (a : Answers)
      → Phenomenon.establish_phenomenon a.world a.scans a.phenomenon s ≡ ok t
      → SameReport s t
  unfolding Phenomenon.establish_phenomenon
  establish_phenomenon-SameReport a h = ground arith

  pub hypothesis_planner-SameReport :
      (plan : HypothesisPlan) → Hypotheses.hypothesis_planner plan s ≡ ok t → SameReport s t
  unfolding Hypotheses.hypothesis_planner
  hypothesis_planner-SameReport plan h = ground arith

  pub observation_planner-SameReport :
      (w : World) (d : ObservationDecision)
      → Planner.observation_planner w d s ≡ ok t
      → SameReport s t
  unfolding Planner.observation_planner
  observation_planner-SameReport w d h = ground arith

  pub tool_executor-SameReport : (w : World) → Executor.tool_executor w s ≡ ok t → SameReport s t
  unfolding Executor.tool_executor
  tool_executor-SameReport w h = ground arith

  pub evidence_normalizer-SameReport :
      (w : World) → Evidence.evidence_normalizer w s ≡ ok t → SameReport s t
  unfolding Evidence.evidence_normalizer
  evidence_normalizer-SameReport w h = ground arith

  pub hypothesis_updater-SameReport :
      (w : World) (d : HypothesisUpdateDecision)
      → Updater.hypothesis_updater w.rt d s ≡ ok t
      → SameReport s t
  unfolding Updater.hypothesis_updater
  hypothesis_updater-SameReport w d h = ground arith

  pub package_builder-SameReport :
      (a : Answers)
      → Package.evidence_package_builder a.world a.window_valid s ≡ ok t
      → SameReport s t
  unfolding Package.evidence_package_builder
  package_builder-SameReport a h = ground arith

routed-SameReport :
    (s : InvestigationState) (r : Router.Routing)
    → SameReport s (visit "tool_router" (Router.routed s r))
unfolding Router.routed
routed-SameReport s r = ground arith

pub tool_router-SameReport :
    (s : InvestigationState) {t : InvestigationState} (w : World)
    → Router.tool_router w s ≡ ok t
    → SameReport s t
unfolding Router.tool_router
tool_router-SameReport s {t} w =
    either (SameReport s) (is_empty s.next_questions) _ _
      (λ h.
        subst (SameReport s) (ok-injective (visit "tool_router" (Router.no_question s)) t h)
          (refl, refl))
      (returned (SameReport s)
        (Router.route_questions w s s.next_questions
          (record { planned = []; unknowns = s.unknowns; refusals = [] }))
        _ (routed-SameReport s))

pub guard_stop-SameReport :
    (s : InvestigationState) (now : Moment) → SameReport s (guard_stop now s)
unfolding guard_stop
guard_stop-SameReport s now = ground arith
