-- ===== src/Nodes/Evidence.antt =====
-- `EvidenceNormalizerNode` and `_plan_for` of graph/deterministic_nodes.py.
use aiops_rca_orchestrator.Common.{
  ◌&&◌, ◌||◌, Option, none, some, List, [], ◌∷◌, ◌++◌, ◌=ₜ◌, if◌then◌else◌, is_empty, find,
}
use aiops_rca_orchestrator.Common.Text.{◌<>◌, optional_eq}
use aiops_rca_orchestrator.Common.Dict.{lookup}
use aiops_rca_orchestrator.Common.Outcome.{Outcome, ok, ◌>>=◌}
use aiops_rca_orchestrator.Schema.Investigation.{
  ResolvedHost, PlannedToolCall, ToolExecutionResult, UnknownItem,
}
use aiops_rca_orchestrator.Schema.Evidence.{Evidence}
use aiops_rca_orchestrator.Normalizer.Merge.{merge_evidence}
use aiops_rca_orchestrator.Normalizer.Build.{normalize_observation}
use aiops_rca_orchestrator.State.{InvestigationState}
use aiops_rca_orchestrator.Nodes.World.{World, visit, note, text_or, last_host}

-- `_plan_for`
unfoldable pub plan_for : InvestigationState → ToolExecutionResult → Option PlannedToolCall
plan_for state observation =
    elim (find
      (λ planned.
        planned.tool_name =ₜ observation.tool_name
        && optional_eq (lookup observation.tool_call_id state.tool_call_purposes)
            (some planned.purpose))
      state.planned_tool_calls) [
        | some planned ↦ some planned
        | none ↦
            find (λ planned. planned.tool_name =ₜ observation.tool_name) state.planned_tool_calls
      ]

abbrev only_host : List ResolvedHost → Option ResolvedHost
only_host (host ∷ []) = some host
only_host _ = none

-- The host that an answer is filed under.
unfoldable pub host_for : InvestigationState → PlannedToolCall → Option ResolvedHost
host_for state planned = elim (last_host state.hosts (text_or planned.host "")) [
  | some host ↦ some host
  | none ↦ only_host state.hosts
]

-- The variables of the loop.
abbrev pub Filed : Type 0
Filed = List Evidence × List UnknownItem

merge_observation :
    World → ToolExecutionResult → PlannedToolCall → Filed → ResolvedHost → Outcome Filed
unfolding merge_evidence normalize_observation
merge_observation w observation planned (evidence, unknowns) host = do
  additions ←
      normalize_observation w.rt w.model w.registry observation planned host.host_id host.host
  merged ← merge_evidence w.model evidence additions
  ok (merged.0, unknowns ++ merged.1)

file_planned :
    World → InvestigationState → ToolExecutionResult → Filed → PlannedToolCall → Outcome Filed
unfolding host_for merge_observation
file_planned w state observation filed planned = elim (host_for state planned) [
  | none ↦
      note "observation_unhosted"
        (observation.tool_name <> ": no resolved host could be associated with the answer")
        (some observation.tool_call_id) filed.1
      >>= λ unknowns. ok (filed.0, unknowns)
  | some host ↦ merge_observation w observation planned filed host
]

-- One round of the loop over the observations.
unfoldable pub file_observation :
    World → InvestigationState → ToolExecutionResult → Filed → Outcome Filed
unfolding plan_for file_planned
file_observation w state observation filed = elim (plan_for state observation) [
  | none ↦
      note "observation_unplanned"
        (observation.tool_name <> " returned an answer no plan in this turn asked for")
        (some observation.tool_call_id) filed.1
      >>= λ unknowns. ok (filed.0, unknowns)
  | some planned ↦ file_planned w state observation filed planned
]

unfoldable pub file_observations :
    World → InvestigationState → List ToolExecutionResult → Filed → Outcome Filed
unfolding file_observation
file_observations w state [] filed = ok filed
file_observations w state (observation ∷ observations) filed =
    file_observation w state observation filed >>= λ next.
    file_observations w state observations next

-- `EvidenceNormalizerNode.__call__`
unfoldable pub evidence_normalizer : World → InvestigationState → Outcome InvestigationState
unfolding file_observations
evidence_normalizer w state =
    if is_empty state.last_observations || is_empty state.planned_tool_calls
    then ok (
        visit "evidence_normalizer" (record state {
          fatal_error = some "evidence_normalizer entered without an observation and plan";
        }))
    else (file_observations w state state.last_observations (state.evidence, state.unknowns)
        >>= λ filed.
            ok (
              visit "evidence_normalizer"
                (record state { evidence = filed.0; unknowns = filed.1 })))
