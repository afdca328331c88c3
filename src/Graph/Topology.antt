-- ===== src/Graph/Topology.antt =====
-- `build_collector_graph` of graph/builder.py: the node that runs next.
use aiops_rca_orchestrator.Common.{ℕ, zero, suc, Bool, ◌≡◌, Option, none, some, String, List}
use aiops_rca_orchestrator.Common.Outcome.{Outcome, ok, ◌>>=◌}
use aiops_rca_orchestrator.Schema.Investigation.{Moment}
use aiops_rca_orchestrator.Schema.Evidence.{EvidenceWindow}
use aiops_rca_orchestrator.Schema.Decisions.{
  HostSearchDecision, PhenomenonScan, HypothesisPlan, ObservationDecision, HypothesisUpdateDecision,
}
use aiops_rca_orchestrator.State.{InvestigationState, rebuild}
use aiops_rca_orchestrator.Nodes.World.{World}
use aiops_rca_orchestrator.Nodes.Hosts
use aiops_rca_orchestrator.Nodes.Hosts.{Search}
use aiops_rca_orchestrator.Nodes.Phenomenon
use aiops_rca_orchestrator.Nodes.Hypotheses
use aiops_rca_orchestrator.Nodes.Planner
use aiops_rca_orchestrator.Nodes.Router
use aiops_rca_orchestrator.Nodes.Executor
use aiops_rca_orchestrator.Nodes.Evidence
use aiops_rca_orchestrator.Nodes.Updater
use aiops_rca_orchestrator.Nodes.Package
use aiops_rca_orchestrator.Nodes.Writer
use aiops_rca_orchestrator.Nodes.Writer.{Write, Check}
use aiops_rca_orchestrator.Graph.Routing.{
  Node, resolve_hosts, establish_phenomenon, hypothesis_planner, observation_planner, tool_router,
  tool_executor, evidence_normalizer, hypothesis_updater, stop_guard, evidence_package_builder,
  report_writer, report_eval, guard_stop, route_after_host_resolution,
  route_after_evidence_normalizer, route_after_stop_guard, route_after_tool_router,
  route_after_report_eval,
}

-- The edges: the node behind this one in this state, or `none` at END.
unfoldable pub next_node : Node → InvestigationState → Option Node
unfolding route_after_host_resolution route_after_tool_router route_after_evidence_normalizer
    route_after_stop_guard route_after_report_eval
next_node resolve_hosts state = some (route_after_host_resolution state)
next_node establish_phenomenon state = some hypothesis_planner
next_node hypothesis_planner state = some observation_planner
next_node observation_planner state = some tool_router
next_node tool_router state = some (route_after_tool_router state)
next_node tool_executor state = some evidence_normalizer
next_node evidence_normalizer state = some (route_after_evidence_normalizer state)
next_node hypothesis_updater state = some stop_guard
next_node stop_guard state = some (route_after_stop_guard state)
next_node evidence_package_builder state = some report_writer
next_node report_writer state = some report_eval
next_node report_eval state = route_after_report_eval state

-- What one visit of a node may ask for: the model's answers, the tools, the clock, the writer.
pub record Answers : Type 0 where
  pub world : World
  pub ask_hosts : ℕ → Search → HostSearchDecision
  pub scans : List PhenomenonScan
  pub phenomenon : String
  pub hypotheses : HypothesisPlan
  pub observations : ObservationDecision
  pub update : HypothesisUpdateDecision
  pub now : Moment
  pub window_valid : EvidenceWindow → Bool
  pub write : Write
  pub check : Check

-- The node's own code.
unfoldable pub run_node : Node → Answers → InvestigationState → Outcome InvestigationState
unfolding Hosts.resolve_hosts Phenomenon.establish_phenomenon Hypotheses.hypothesis_planner
    Planner.observation_planner Router.tool_router Executor.tool_executor
    Evidence.evidence_normalizer Updater.hypothesis_updater guard_stop
    Package.evidence_package_builder Writer.report_writer Writer.report_eval
run_node resolve_hosts a state = Hosts.resolve_hosts a.world a.ask_hosts state
run_node establish_phenomenon a state =
    Phenomenon.establish_phenomenon a.world a.scans a.phenomenon state
run_node hypothesis_planner a state = Hypotheses.hypothesis_planner a.hypotheses state
run_node observation_planner a state = Planner.observation_planner a.world a.observations state
run_node tool_router a state = Router.tool_router a.world state
run_node tool_executor a state = Executor.tool_executor a.world state
run_node evidence_normalizer a state = Evidence.evidence_normalizer a.world state
run_node hypothesis_updater a state = Updater.hypothesis_updater a.world.rt a.update state
run_node stop_guard a state = ok (guard_stop a.now state)
run_node evidence_package_builder a state =
    Package.evidence_package_builder a.world a.window_valid state
run_node report_writer a state = Writer.report_writer a.write state
run_node report_eval a state = Writer.report_eval a.check state

-- A visit: the state is rebuilt, and the node runs on it.
unfoldable pub visit_node : Node → Answers → InvestigationState → Outcome InvestigationState
unfolding rebuild run_node
visit_node node a state = rebuild state >>= λ valid. run_node node a valid

-- `Run node state n last`: from `node` in `state`, `n` more visits lead to END in `last`.
pub data Run : Node → InvestigationState → ℕ → InvestigationState → Type 0 where
  finish :
      (node : Node) (a : Answers) (state last : InvestigationState)
      → visit_node node a state ≡ ok last
      → next_node node last ≡ none
      → Run node state 1 last
  step :
      {n : ℕ} (node next : Node) (a : Answers) (state after last : InvestigationState)
      → visit_node node a state ≡ ok after
      → next_node node after ≡ some next
      → Run next after n last
      → Run node state (suc n) last

-- The compiled graph, run for at most `fuel` visits; `answers k` is what the visit with `k` more
-- behind it gets. `none` says that the visits were used up.
unfoldable pub drive :
    ℕ → (ℕ → Answers) → Node → InvestigationState → Outcome (Option InvestigationState)
unfolding visit_node next_node
drive zero answers node state = ok none
drive (suc fuel) answers node state = visit_node node (answers fuel) state >>= λ after.
    elim (next_node node after) [
      | none ↦ ok (some after)
      | some next ↦ drive fuel answers next after
    ]
