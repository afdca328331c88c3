-- ===== src/Nodes/Hypotheses.antt =====
-- `HypothesisPlannerNode` of graph/live_nodes.py.
use aiops_rca_orchestrator.Common.{Option, none, some, String, [], map, if◌then◌else◌, is_empty}
use aiops_rca_orchestrator.Common.Outcome.{Outcome, ok, require, value_error, ◌>>◌}
use aiops_rca_orchestrator.Schema.Investigation.{Hypothesis, active}
use aiops_rca_orchestrator.Schema.Decisions.{HypothesisPlan}
use aiops_rca_orchestrator.State.{InvestigationState}
use aiops_rca_orchestrator.State.Validity.{unique}
use aiops_rca_orchestrator.Nodes.World.{visit, text_or}

-- A hypothesis as it enters the investigation, whatever the model said of its status and support.
abbrev pub fresh : Hypothesis → Hypothesis
fresh h = record h { status = active; supporting_evidence_ids = []; counter_evidence_ids = [] }

unfoldable pub plan_stop_reason : HypothesisPlan → Option String
plan_stop_reason plan =
    if is_empty plan.hypotheses
    then some (text_or plan.stop_reason "the request requires no causal hypothesis investigation")
    else none

-- `HypothesisPlannerNode.__call__`
unfoldable pub hypothesis_planner : HypothesisPlan → InvestigationState → Outcome InvestigationState
unfolding unique plan_stop_reason
hypothesis_planner plan state = do
  let hypotheses = map fresh plan.hypotheses
  require (unique (map (λ h. h.id) hypotheses)) (value_error "hypothesis id values must be unique")
  ok (
      visit "hypothesis_planner"
        (record state { hypotheses = hypotheses; stop_reason = plan_stop_reason plan }))
