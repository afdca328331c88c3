-- ===== src/Graph/Effects.antt =====
-- What each node leaves alone of the counters that bound a run.
use aiops_rca_orchestrator.Common.{
  suc, ◌≤◌, ◌≡◌, refl, true, false, String, not, some, [], ◌=ₜ◌, ◌⊎◌, inl, inr, arith, Bool-cases,
  is_empty, subst, ap,
}
use aiops_rca_orchestrator.Common.Text.{◌<>◌}
use aiops_rca_orchestrator.Common.TextLaws.{append-ne-empty}
use aiops_rca_orchestrator.Common.Outcome.{ok, ok-injective, after, returned}
use aiops_rca_orchestrator.State.{InvestigationState, is_set}
use aiops_rca_orchestrator.Schema.Decisions.{
  HypothesisPlan, ObservationDecision, HypothesisUpdateDecision,
}
use aiops_rca_orchestrator.Nodes.World.{World, visit, text_or}
use aiops_rca_orchestrator.Nodes.Hosts
use aiops_rca_orchestrator.Nodes.Phenomenon
use aiops_rca_orchestrator.Nodes.Hypotheses
use aiops_rca_orchestrator.Nodes.Planner
use aiops_rca_orchestrator.Nodes.Router
use aiops_rca_orchestrator.Nodes.Executor
use aiops_rca_orchestrator.Nodes.Evidence
use aiops_rca_orchestrator.Nodes.Updater
use aiops_rca_orchestrator.Schema.Investigation.{Moment}
use aiops_rca_orchestrator.Graph.Routing.{guard_stop, hard_stop_update, limit_update}
use aiops_rca_orchestrator.Graph.Topology.{Answers}

-- The limits and the counters are those of `s`.
abbrev pub Counts : InvestigationState → InvestigationState → Type 0
Counts s t =
    (t.limits ≡ s.limits)
    × (t.iteration_count ≡ s.iteration_count)
    × (t.routing_attempts ≡ s.routing_attempts)

-- So are the questions of the turn.
abbrev pub Keeps : InvestigationState → InvestigationState → Type 0
Keeps s t = Counts s t × (t.next_questions ≡ s.next_questions)

module _ (s : InvestigationState) {t : InvestigationState} where
  pub resolve_hosts-Keeps :
      (a : Answers) → Hosts.resolve_hosts a.world a.ask_hosts s ≡ ok t → Keeps s t
  unfolding Hosts.resolve_hosts
  resolve_hosts-Keeps a h =
      after (Keeps s) (Hosts.search a.world s s.parsed_request.host_queries a.ask_hosts) _
        (λ found _ k. ground arith) h

  pub establish_phenomenon-Keeps :
      (a : Answers)
      → Phenomenon.establish_phenomenon a.world a.scans a.phenomenon s ≡ ok t
      → Keeps s t
  unfolding Phenomenon.establish_phenomenon
  establish_phenomenon-Keeps a h = ground arith

  pub hypothesis_planner-Keeps :
      (plan : HypothesisPlan) → Hypotheses.hypothesis_planner plan s ≡ ok t → Keeps s t
  unfolding Hypotheses.hypothesis_planner
  hypothesis_planner-Keeps plan h = ground arith

  pub tool_executor-Counts : (w : World) → Executor.tool_executor w s ≡ ok t → Counts s t
  unfolding Executor.tool_executor
  tool_executor-Counts w h = ground arith

  pub evidence_normalizer-Counts :
      (w : World) → Evidence.evidence_normalizer w s ≡ ok t → Counts s t
  unfolding Evidence.evidence_normalizer
  evidence_normalizer-Counts w h = ground arith

  pub hypothesis_updater-Counts :
      (w : World) (d : HypothesisUpdateDecision)
      → Updater.hypothesis_updater w.rt d s ≡ ok t
      → Counts s t
  unfolding Updater.hypothesis_updater
  hypothesis_updater-Counts w d h = ground arith

  -- The planner counts an iteration, unless the run has stopped: then it leaves all as it was.
  pub observation_planner-counts :
      (w : World) (d : ObservationDecision)
      → Planner.observation_planner w d s ≡ ok t
      → (t.limits ≡ s.limits)
        × (t.routing_attempts ≡ s.routing_attempts)
        × ((is_set s.stop_reason ≡ true)
              × (t.iteration_count ≡ s.iteration_count)
              × (t.next_questions ≡ s.next_questions)
            ⊎ (is_set s.stop_reason ≡ false) × (t.iteration_count ≡ suc s.iteration_count))
  unfolding Planner.observation_planner
  observation_planner-counts w d h = ground arith

-- How the router leaves a state: calls are planned, a refusal is counted, or the run is stopped.
abbrev pub RouterExit : InvestigationState → InvestigationState → Type 0
RouterExit s t =
    (t.limits ≡ s.limits)
    × (t.iteration_count ≡ s.iteration_count)
    × ((is_empty s.next_questions ≡ false)
          × (is_empty t.planned_tool_calls ≡ false)
          × (t.routing_attempts ≡ 0)
        ⊎ (is_empty s.next_questions ≡ false)
          × (is_empty t.planned_tool_calls ≡ true)
          × (t.routing_attempts ≡ suc s.routing_attempts)
          × (t.routing_attempts ≤ Router.max_routing_attempts)
        ⊎ (is_empty t.planned_tool_calls ≡ true) × (is_set t.stop_reason ≡ true))

is_set-unrouted :
    (reason : String)
    → is_set (some ("the next observation could not be routed: " <> reason)) ≡ true
unfolding is_set
is_set-unrouted reason =
    ap not (append-ne-empty "t" "he next observation could not be routed: " reason)

routed-exits :
    (s : InvestigationState) (r : Router.Routing)
    → is_empty s.next_questions ≡ false
    → RouterExit s (visit "tool_router" (Router.routed s r))
unfolding Router.routed
routed-exits s r h =
    ground (arith, is_set-unrouted (Router.first_or r.refusals "no proposal was allowed"))

no_question-exits :
    (s : InvestigationState) → RouterExit s (visit "tool_router" (Router.no_question s))
unfolding is_set ◌=ₜ◌
no_question-exits s = (refl, refl, inr (inr (refl, refl)))

pub tool_router-exits :
    (s : InvestigationState) {t : InvestigationState} (w : World)
    → Router.tool_router w s ≡ ok t
    → RouterExit s t
unfolding Router.tool_router
tool_router-exits s w h = elim (Bool-cases (is_empty s.next_questions)) [
  | inl none_left ↦
      subst (RouterExit s) (ok-injective _ _ (rw none_left at h)) (no_question-exits s)
  | inr some_left ↦
      returned (RouterExit s)
        (Router.route_questions w s s.next_questions
          (record { planned = []; unknowns = s.unknowns; refusals = [] }))
        _ (λ r. routed-exits s r some_left) (rw some_left at h)
]

pub guard_stop-Counts : (s : InvestigationState) (now : Moment) → Counts s (guard_stop now s)
unfolding guard_stop
guard_stop-Counts s now = ground arith

pub is_set-calls : is_set (some "maximum tool-call budget reached") ≡ true
unfolding is_set ◌=ₜ◌
is_set-calls = refl

pub is_set-iterations : is_set (some "maximum investigation iterations reached") ≡ true
unfolding is_set ◌=ₜ◌
is_set-iterations = refl

pub is_set-hosts : is_set (some "no host could be resolved for investigation") ≡ true
unfolding is_set ◌=ₜ◌
is_set-hosts = refl

pub is_set-fatal : (text : String) → is_set (some ("fatal state error: " <> text)) ≡ true
unfolding is_set
is_set-fatal text = ap not (append-ne-empty "f" "atal state error: " text)

limit_update-stops :
    (s : InvestigationState) (now : Moment)
    → s.limits.max_iterations ≤ s.iteration_count
    → is_set (limit_update s now).stop_reason ≡ true
unfolding limit_update
limit_update-stops s now h = ground (arith, is_set-calls, is_set-iterations)

-- At the limit on iterations the guard stops the run.
pub guard_stop-stops :
    (s : InvestigationState) (now : Moment)
    → s.limits.max_iterations ≤ s.iteration_count
    → is_set (guard_stop now s).stop_reason ≡ true
unfolding guard_stop hard_stop_update
guard_stop-stops s now h =
    ground
      (arith, is_set-hosts, is_set-fatal (text_or s.fatal_error ""), limit_update-stops s now h)
