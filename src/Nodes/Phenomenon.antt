-- ===== src/Nodes/Phenomenon.antt =====
-- `EstablishPhenomenonNode` of graph/live_nodes.py.
use aiops_rca_orchestrator.Common.{
  ℕ, suc, true, inl, inr, none, some, String, List, [], ◌∷◌, ◌++◌, leb, if◌then◌else◌, length, drop,
}
use aiops_rca_orchestrator.Common.Text.{◌<>◌}
use aiops_rca_orchestrator.Common.Dict.{Dict, insert}
use aiops_rca_orchestrator.Common.Outcome.{Outcome, ok, raised, tool_policy_error, ◌>>=◌}
use aiops_rca_orchestrator.Schema.Investigation.{
  ResolvedHost, timeless, PlannedToolCall, planned_tool_call, ToolExecutionResult, is_error,
  UnknownItem,
}
use aiops_rca_orchestrator.Schema.Evidence.{Evidence}
use aiops_rca_orchestrator.Schema.Decisions.{PhenomenonScan}
use aiops_rca_orchestrator.Registry.{RoutingContext}
use aiops_rca_orchestrator.Normalizer.Merge.{merge_evidence}
use aiops_rca_orchestrator.Normalizer.Build.{normalize_observation}
use aiops_rca_orchestrator.State.{InvestigationState, declared_window_policy}
use aiops_rca_orchestrator.Nodes.World.{
  World, visit, note, text_or, last_host, decoded_object, resolved_window,
}

-- The variables of the loop over the scans.
pub record Scanned : Type 0 where
  pub results : List ToolExecutionResult
  pub errors : List ToolExecutionResult
  pub unknowns : List UnknownItem
  pub evidence : List Evidence
  pub purposes : Dict String

abbrev pub noted : String → String → Scanned → Outcome Scanned
noted code message s =
    note code message none s.unknowns >>= λ unknowns. ok (record s { unknowns = unknowns })

scan_context : InvestigationState → Scanned → RoutingContext
unfolding declared_window_policy
scan_context state s = record {
  temporal_scope = timeless;
  generic_fallback_allowed = true;
  tool_call_count = length s.results;
  max_tool_calls = state.limits.max_tool_calls;
  declared_window_policy = declared_window_policy state;
}

scan_error : PhenomenonScan → ToolExecutionResult → List UnknownItem → Outcome (List UnknownItem)
scan_error scan result unknowns =
    if is_error result.status
    then note "phenomenon_scan_error" (text_or result.error (scan.tool_name <> " failed"))
        (some result.tool_call_id) unknowns
    else ok unknowns

-- What a scan that was made adds.
unfoldable pub absorb :
    World
    → ResolvedHost
    → PhenomenonScan
    → PlannedToolCall
    → ToolExecutionResult
    → Scanned
    → Outcome Scanned
unfolding scan_error merge_evidence normalize_observation
absorb w host scan planned result s = scan_error scan result s.unknowns >>= λ unknowns.
    normalize_observation w.rt w.model w.registry result planned host.host_id host.host
    >>= λ additions. merge_evidence w.model s.evidence additions >>= λ merged. ok (record {
      results = s.results ++ result ∷ [];
      errors = if is_error result.status then s.errors ++ result ∷ [] else s.errors;
      unknowns = unknowns ++ merged.1;
      evidence = merged.0;
      purposes = insert result.tool_call_id planned.purpose s.purposes;
    })

scan_outcome :
    World
    → ResolvedHost
    → PhenomenonScan
    → PlannedToolCall
    → Scanned
    → Outcome ToolExecutionResult
    → Outcome Scanned
unfolding absorb
scan_outcome w host scan planned s (ok result) = absorb w host scan planned result s
scan_outcome w host scan planned s (raised (tool_policy_error message retryable)) =
    noted "phenomenon_scan_blocked" (host.host <> (": " <> message)) s
scan_outcome w host scan planned s (raised exception) = raised exception

-- The call of a scan, the `index`-th of the plan.
unfoldable pub scan_host :
    World → InvestigationState → ℕ → ResolvedHost → PhenomenonScan → Scanned → Outcome Scanned
unfolding scan_outcome scan_context
scan_host w state index host scan s = elim (decoded_object (w.rt.loads scan.arguments_json)) [
  | inr reason ↦ noted "phenomenon_scan_unusable" (scan.tool_name <> (": " <> reason)) s
  | inl arguments ↦
      planned_tool_call scan.tool_name arguments
        ("Establish the observed phenomenon on host " <> host.host) [] (some host.host) host.host_id
      >>= λ planned.
          scan_outcome w host scan planned s (w.execute index planned (scan_context state s))
]

-- The loop over the scans.
unfoldable pub scan_all :
    World → InvestigationState → ℕ → List PhenomenonScan → Scanned → Outcome Scanned
unfolding scan_host
scan_all w state index [] s = ok s
scan_all w state index (scan ∷ scans) s =
    let rest = λ (next : Scanned). scan_all w state (suc index) scans next in
    elim (last_host state.hosts scan.host) [
      | none ↦
          noted "phenomenon_scan_unresolved_host"
            ("The scan plan named "
              <> (w.rt.repr scan.host <> ", which this investigation did not resolve."))
            s
          >>= rest
      | some host ↦
          if leb state.limits.max_tool_calls (length s.results)
          then noted "phenomenon_scan_budget_exhausted"
              "The tool-call budget ended before every host received a shallow scan." s
          else (scan_host w state index host scan s >>= rest)
    ]

-- `EstablishPhenomenonNode.__call__`, with the scans and the phenomenon that the model decided.
unfoldable pub establish_phenomenon :
    World → List PhenomenonScan → String → InvestigationState → Outcome InvestigationState
unfolding scan_all resolved_window
establish_phenomenon w scans phenomenon state = do
  window ← resolved_window state
  s ← scan_all w state 0 scans (record {
    results = state.tool_results;
    errors = state.tool_errors;
    unknowns = state.unknowns;
    evidence = state.evidence;
    purposes = state.tool_call_purposes;
  })
  ok (
      visit "establish_phenomenon" (record state {
        phenomenon = some phenomenon;
        evidence = s.evidence;
        unknowns = s.unknowns;
        tool_results = s.results;
        tool_errors = s.errors;
        tool_call_count = length s.results;
        tool_call_purposes = s.purposes;
        last_observations = drop (length state.tool_results) s.results;
      }))
