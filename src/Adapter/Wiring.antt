-- ===== src/Adapter/Wiring.antt =====
-- `AdapterSet` and `McpAdapter.list_tools` of tools/adapters/base.py.
use aiops_rca_orchestrator.Common.{
  ◌≡◌, refl, subst, Bool, true, not, Option, none, some, String, List, [], ◌∷◌, map, keep, is_empty,
  is_some, arith,
}
use aiops_rca_orchestrator.Common.Dict.{Dict, lookup, insert}
use aiops_rca_orchestrator.Common.Text.{◌<>◌, join, sort}
use aiops_rca_orchestrator.Common.Value.{Value}
use aiops_rca_orchestrator.Common.Outcome.{
  Outcome, ok, raised, require, value_error, failure, plain, ◌>>◌, required, ok-injective,
}
use aiops_rca_orchestrator.Sources.{
  ToolSource, zabbix, elasticsearch, wazuh, source_text, source_names,
}

-- `merged.update(named)`
abbrev pub updated {ℓ} : {A : Type ℓ} → Dict A → Dict A → Dict A
updated merged [] = merged
updated merged ((name, adapter) ∷ named) = updated (insert name adapter merged) named

abbrev lacks {ℓ} : {A : Type ℓ} → Dict A → ToolSource → Bool
lacks merged source = not (is_some (lookup (source_text source) merged))

-- `AdapterSet(adapters, **named)`
unfoldable pub adapter_set {ℓ} : {A : Type ℓ} → (adapters named : Dict A) → Outcome (Dict A)
unfolding join sort
adapter_set adapters named = do
  let merged = updated adapters named
  let missing = keep (lacks merged) source_names
  require (is_empty missing)
      (value_error ("no adapter for source(s): " <> join ", " (sort (map source_text missing))))
  ok merged

found {ℓ} : {A : Type ℓ} → String → Option A → Outcome A
found name none = raised (failure (plain "KeyError" name))
found name (some adapter) = ok adapter

-- `adapters.for_source(source)`
unfoldable pub for_source {ℓ} : {A : Type ℓ} → Dict A → ToolSource → Outcome A
unfolding found
for_source adapters source = found (source_text source) (lookup (source_text source) adapters)

-- `McpAdapter.list_tools()`, of what the transport returned in time, if it did.
unfoldable pub adapter_list_tools :
    Option (Outcome (List (Dict Value))) → Outcome (List (Dict Value))
adapter_list_tools none = raised (failure (plain "TimeoutError" ""))
adapter_list_tools (some tools) = tools

found-some {ℓ} :
    {A : Type ℓ} (name : String) (o : Option A) → is_some o ≡ true → (a : A) × (found name o ≡ ok a)
unfolding found
found-some name none h = absurd (cc)
found-some name (some a) h = (a, refl)

listed {ℓ} :
    {A : Type ℓ} (merged : Dict A) (source : ToolSource)
    → is_empty (keep (lacks merged) source_names) ≡ true
    → is_some (lookup (source_text source) merged) ≡ true
listed merged zabbix h = ground arith
listed merged elasticsearch h = ground arith
listed merged wazuh h = ground arith

-- A set of adapters that could be built has an adapter for every source, so that `for_source` never
-- raises.
pub adapter_set-serves {ℓ} :
    {A : Type ℓ} (adapters named set : Dict A) (source : ToolSource)
    → adapter_set adapters named ≡ ok set
    → (a : A) × (for_source set source ≡ ok a)
unfolding adapter_set for_source
adapter_set-serves adapters named set source h =
    let merged = updated adapters named in
    let met =
      required (is_empty (keep (lacks merged) source_names))
        (value_error (
          "no adapter for source(s): "
          <> join ", " (sort (map source_text (keep (lacks merged) source_names)))))
        (ok merged) h in
    found-some (source_text source) (lookup (source_text source) set) (
      subst (λ d. is_some (lookup (source_text source) d) ≡ true) (ok-injective merged set met.1)
        (listed merged source met.0))
