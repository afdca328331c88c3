-- ===== src/Examples/Parts.antt =====
-- The properties of the registry, the adapter, the merge, the state and the nodes, at concrete
-- inputs.
use aiops_rca_orchestrator.Common.{
  ℕ, map, ◌≤◌, ◌+◌, ◌≡◌, refl, arith, true, false, none, some, String, List, [], ◌∷◌, ◌++◌, length,
  is_some, ◌⊎◌, ◌=ₜ◌, ◌-◌, ◌||◌, if◌then◌else◌,
}
use aiops_rca_orchestrator.Common.Text.{within, within_optional}
use aiops_rca_orchestrator.Adapter.Failures.{describe_failure}
use aiops_rca_orchestrator.Common.Dict.{Dict, lookup, insert}
use aiops_rca_orchestrator.Common.Value.{Value, null, str}
use aiops_rca_orchestrator.Common.Outcome.{
  Outcome, ok, raised, Exception, tool_policy_error, failure, plain,
}
use aiops_rca_orchestrator.Schema.Investigation.{
  planned_tool_call, unknown_item, UnknownItem, current,
}
use aiops_rca_orchestrator.Schema.Evidence.{Evidence}
use aiops_rca_orchestrator.Sources.{wazuh, zabbix, elasticsearch, source_text}
use aiops_rca_orchestrator.Adapter.Wiring.{adapter_set, for_source, updated, adapter_set-serves}
use aiops_rca_orchestrator.Registry.{
  RoutingContext, ToolPolicy, any_time, structured, get_policy, validate_call, apply_window_policy,
}
use aiops_rca_orchestrator.Registry.{missing_keys}
use aiops_rca_orchestrator.Registry.Default.{default_tool_registry, tool}
use aiops_rca_orchestrator.Registry.Guards.{
  Allowed, Refused, validate_call-Allowed, validate_call-refusal,
}
use aiops_rca_orchestrator.Registry.{long_window_policy}
use aiops_rca_orchestrator.Registry.Widening.{Widened, apply_window_policy-Widened}
use aiops_rca_orchestrator.Adapter.Execute.{Call, failed, settle}
use aiops_rca_orchestrator.Adapter.Verdicts.{Agrees, settle-Agrees}
use aiops_rca_orchestrator.Normalizer.Merge.{Merging, merge_all, merge_evidence_within}
use aiops_rca_orchestrator.Normalizer.Capacity.{merge_evidence-within, merge_all-keeps}
use aiops_rca_orchestrator.State.{
  is_set, InvestigationState, bound_what_only_grows, rebuild, validate_graph_invariants,
}
use aiops_rca_orchestrator.State.Trim.{full_lists, notice, over_unknowns, over_facts}
use aiops_rca_orchestrator.State.Ceiling.{bound-within, bound-idempotent, rebuild-again}
use aiops_rca_orchestrator.Nodes.Router.{tool_router}
use aiops_rca_orchestrator.Nodes.Executor.{tool_executor}
use aiops_rca_orchestrator.Nodes.Budgets.{
  Accounts, tool_router-within_budget, tool_executor-Accounts,
}
use aiops_rca_orchestrator.Nodes.Package.{package_of, references_resolve}
use aiops_rca_orchestrator.Normalizer.Ids.{merge_evidence-unique}
use aiops_rca_orchestrator.Nodes.Updater.{hypothesis_updater}
use aiops_rca_orchestrator.Nodes.Citations.{References, hypothesis_updater-References}
use aiops_rca_orchestrator.Nodes.Planner.{observation_planner}
use aiops_rca_orchestrator.Nodes.Questions.{observation_planner-within_budget}
use aiops_rca_orchestrator.State.Validity.{unique, hypotheses_resolve, facts_resolve}
use aiops_rca_orchestrator.Graph.{
  Node, route_after_stop_guard, guard_stop, evidence_package_builder,
}
use aiops_rca_orchestrator.Graph.Guard.{must_stop, guard_stop-continues}
use aiops_rca_orchestrator.Nodes.References.{package-references}
use aiops_rca_orchestrator.Examples.Samples.{
  rt, world, asking, planned, crowded, observed, update, decision, known, evidence,
}

unfoldable returned_state : Outcome InvestigationState → InvestigationState
returned_state (ok s) = s
returned_state (raised e) = known

abbrev context : RoutingContext
context = record {
  temporal_scope = current;
  generic_fallback_allowed = false;
  tool_call_count = 1;
  max_tool_calls = 2;
  declared_window_policy = some "long_term_capacity";
}

abbrev agents : ToolPolicy
agents = tool "get_wazuh_agents" wazuh structured [] [] 25 ("agents" ∷ []) none

validate_call-Allowed_example :
    (get_policy default_tool_registry "get_wazuh_agents" ≡ ok agents)
    × Allowed agents context any_time
    × (missing_keys agents [] ≡ [])
unfolding validate_call ◌=ₜ◌
validate_call-Allowed_example =
    validate_call-Allowed rt default_tool_registry "get_wazuh_agents" [] context any_time agents
      refl

abbrev unknown_tool : Exception
unknown_tool = tool_policy_error "tool is not allowlisted: ping" true

validate_call-refusal_example :
    Refused rt default_tool_registry "ping" [] context any_time unknown_tool
unfolding validate_call ◌=ₜ◌
validate_call-refusal_example =
    validate_call-refusal rt default_tool_registry "ping" [] context any_time unknown_tool refl

abbrev events : ToolPolicy
events =
    tool "get_incident_events" zabbix structured ("time_from" ∷ "time_to" ∷ []) [] 20
      ("events" ∷ []) (some "policy")

abbrev since : Dict Value
since = ("time_from", str "2026-01-01T00:00:00Z") ∷ []

apply_window_policy-Widened_example :
    (insert "policy" (str long_window_policy) since ≡ since)
    ⊎ (argument : String) × (events.window_policy_argument ≡ some argument)
      × Widened argument since (insert "policy" (str long_window_policy) since)
unfolding apply_window_policy ◌=ₜ◌
apply_window_policy-Widened_example =
    apply_window_policy-Widened rt events since (some "long_term_capacity") _ refl

abbrev unreachable : Call
unreachable = record {
  call_tool = λ name arguments. failed (failure (plain "ConnectError" "refused"));
  says_no = λ text. false;
  timeout_text = "30";
  call_id = "call-1";
  started_at = 0;
  finished_at = 1;
}

settle-Agrees_example :
    Agrees (settle rt agents unreachable (failed (failure (plain "ConnectError" "refused"))))
settle-Agrees_example =
    settle-Agrees rt agents unreachable (failed (failure (plain "ConnectError" "refused")))

merge_evidence-within_example : length (evidence "a" ∷ evidence "b" ∷ []) ≤ 2
unfolding merge_evidence_within ◌=ₜ◌
merge_evidence-within_example =
    merge_evidence-within world.model 2 (evidence "a" ∷ []) (evidence "b" ∷ evidence "a" ∷ [])
      (evidence "a" ∷ evidence "b" ∷ []) [] (omega arith) refl

abbrev merging : Dict Evidence → Merging
merging d = record { merged = d; unknowns = []; dropped = 0 }

merge_all-keeps_example :
    is_some (lookup "a" (("a", evidence "a") ∷ ("b", evidence "b") ∷ [])) ≡ true
unfolding merge_all ◌=ₜ◌
merge_all-keeps_example =
    merge_all-keeps world.model 2 "a" (evidence "b" ∷ []) (merging (("a", evidence "a") ∷ []))
      (merging (("a", evidence "a") ∷ ("b", evidence "b") ∷ [])) refl refl

bound-within_example :
    (length (bound_what_only_grows crowded).unknowns ≤ 100)
    × (length (bound_what_only_grows crowded).known_facts ≤ 100)
    × (kept : List UnknownItem) × ((bound_what_only_grows crowded).unknowns
        ≡ kept ++ notice (full_lists (over_unknowns crowded) (over_facts crowded)) ∷ [])
unfolding over_unknowns over_facts ◌=ₜ◌
bound-within_example = bound-within crowded refl

bound-idempotent_example :
    bound_what_only_grows (bound_what_only_grows crowded) ≡ bound_what_only_grows crowded
bound-idempotent_example = bound-idempotent crowded

rebuild-again_example : rebuild (bound_what_only_grows crowded) ≡ ok (bound_what_only_grows crowded)
unfolding rebuild bound_what_only_grows ◌=ₜ◌
rebuild-again_example = rebuild-again crowded (bound_what_only_grows crowded) refl

unfoldable routed_asking : InvestigationState
unfolding tool_router returned_state
routed_asking = returned_state (tool_router world asking)

tool_router-within_budget_example :
    asking.tool_call_count + length routed_asking.planned_tool_calls ≤ asking.limits.max_tool_calls
unfolding tool_router returned_state routed_asking ◌=ₜ◌ validate_call planned_tool_call within
    within_optional unknown_item
tool_router-within_budget_example =
    tool_router-within_budget world asking routed_asking (omega arith) refl

unfoldable executed_planned : InvestigationState
unfolding tool_executor returned_state
executed_planned = returned_state (tool_executor world planned)

tool_executor-Accounts_example : Accounts world planned executed_planned
unfolding tool_executor returned_state executed_planned ◌=ₜ◌ unknown_item within within_optional
    describe_failure
tool_executor-Accounts_example = tool_executor-Accounts world planned executed_planned refl refl

package-references_example :
    references_resolve
      (package_of rt known (record { from = str "a"; to = str "b"; aggregation = null }))
    ≡ true
unfolding validate_graph_invariants ◌=ₜ◌
package-references_example =
    package-references rt known known (record { from = str "a"; to = str "b"; aggregation = null })
      refl

unfoldable updated_state : InvestigationState
unfolding hypothesis_updater returned_state
updated_state = returned_state (hypothesis_updater rt update observed)

hypothesis_updater-References_example : References updated_state
unfolding hypothesis_updater returned_state updated_state hypotheses_resolve facts_resolve ◌=ₜ◌
    unknown_item within within_optional
hypothesis_updater-References_example =
    hypothesis_updater-References rt update observed updated_state (refl, refl) refl

unfoldable questioned : InvestigationState
unfolding observation_planner returned_state
questioned = returned_state (observation_planner world decision observed)

observation_planner-within_budget_example :
    length questioned.next_questions ≤ observed.limits.max_tool_calls - observed.tool_call_count
unfolding observation_planner returned_state questioned is_set ◌=ₜ◌ unknown_item within
    within_optional
observation_planner-within_budget_example =
    observation_planner-within_budget world observed decision questioned refl refl

guard_stop-continues_example : route_after_stop_guard (guard_stop 5 known) ≡ (
    if is_set known.stop_reason || must_stop known 5
    then evidence_package_builder
    else Node.observation_planner)
guard_stop-continues_example = guard_stop-continues known 5

merge_evidence-unique_example :
    unique (map (λ e. e.evidence_id) (evidence "a" ∷ evidence "b" ∷ [])) ≡ true
unfolding merge_evidence_within ◌=ₜ◌
merge_evidence-unique_example =
    merge_evidence-unique world.model 2 (evidence "a" ∷ evidence "a" ∷ [])
      (evidence "b" ∷ evidence "a" ∷ []) (evidence "a" ∷ evidence "b" ∷ []) [] refl

-- Two adapters by their sources, and one by its name.
abbrev adapters : Dict ℕ
adapters = (source_text zabbix, 1) ∷ (source_text elasticsearch, 2) ∷ []

abbrev named_adapters : Dict ℕ
named_adapters = (source_text wazuh, 3) ∷ []

adapters_set : adapter_set adapters named_adapters ≡ ok (updated adapters named_adapters)
unfolding adapter_set ◌=ₜ◌
adapters_set = refl

adapter_set-serves_example : (a : ℕ) × (for_source (updated adapters named_adapters) wazuh ≡ ok a)
adapter_set-serves_example =
    adapter_set-serves adapters named_adapters (updated adapters named_adapters) wazuh adapters_set
