-- ===== src/Service/Catalog.antt =====
-- `_load_tool_catalog` and `_declared_scope` of services/investigation.py.
pub mod Laws
use aiops_rca_orchestrator.Common.{
  Bool, true, false, ◌&&◌, ◌||◌, Option, none, some, String, List, [], ◌∷◌, ◌++◌, ◌=ₜ◌,
  if◌then◌else◌,
}
use aiops_rca_orchestrator.Common.Dict.{Dict}
use aiops_rca_orchestrator.Common.Text.{◌<>◌, text_take}
use aiops_rca_orchestrator.Common.Value.{
  Value, str, dict, end, entries, get, or_else, truthy, to_str, Runtime,
}
use aiops_rca_orchestrator.Common.Outcome.{Outcome, Exception, ok, raised, ◌>>=◌}
use aiops_rca_orchestrator.Sources.{ToolSource, source_eq, source_text, source_names}
use aiops_rca_orchestrator.Schema.Investigation.{UnknownItem, unknown_item}
use aiops_rca_orchestrator.Registry.{
  ToolPolicy, ToolRegistry, ToolKind, structured, generic, inventory, get_policy,
}
use aiops_rca_orchestrator.Nodes.World.{exception_text}
use aiops_rca_orchestrator.Service.Examples.{without_examples}

-- `meta.get("temporal_scope") if isinstance(meta, dict) else None`, of a scope that is known.
abbrev scope_in : Value → Option String
scope_in (str scope) =
    if scope =ₜ "historical" || (scope =ₜ "current_only" || scope =ₜ "any")
    then some scope
    else none
scope_in _ = none

abbrev meta_scope : Value → Option String
meta_scope (dict meta) = scope_in (get "temporal_scope" (entries meta))
meta_scope _ = none

-- `_declared_scope(tool)`
unfoldable pub declared_scope : Dict Value → String
unfolding truthy
declared_scope tool =
    elim (meta_scope (or_else (get "_meta" tool) (or_else (get "meta" tool) (dict end)))) [
      | none ↦ "any"
      | some scope ↦ scope
    ]

abbrev pub kind_text : ToolKind → String
kind_text structured = "structured"
kind_text generic = "generic"
kind_text inventory = "inventory"

unfoldable pub catalog_entry : Runtime → ToolSource → ToolPolicy → String → Dict Value → Dict Value
unfolding declared_scope to_str truthy text_take without_examples
catalog_entry rt source policy name item =
    ("name", str name)
    ∷ ("source", str (source_text source))
    ∷ ("kind", str (kind_text policy.kind))
    ∷ ("temporal_scope", str (declared_scope item))
    ∷ ("description", str (text_take 4000 (to_str rt (or_else (get "description" item) (str "")))))
    ∷ ("input_schema", without_examples (or_else (get "inputSchema" item) (dict end)))
    ∷ []

-- `if policy.source != source or policy.blocked_reason: continue`
abbrev pub open_to : ToolSource → ToolPolicy → Bool
open_to source policy =
    source_eq policy.source source
    && elim policy.blocked_reason [ none ↦ true | some reason ↦ reason =ₜ "" ]

abbrev pub known_entry :
    Runtime → ToolSource → String → Dict Value → Outcome ToolPolicy → List (Dict Value)
known_entry rt source name item (ok policy) =
    if open_to source policy then catalog_entry rt source policy name item ∷ [] else []
known_entry rt source name item (raised refusal) = []

abbrev pub named_entry :
    Runtime → ToolRegistry → ToolSource → Dict Value → Value → List (Dict Value)
named_entry rt registry source item (str name) =
    known_entry rt source name item (get_policy registry name)
named_entry rt registry source item _ = []

-- One round of the loop over a source's tools: an entry, or none.
unfoldable pub tool_entry : Runtime → ToolRegistry → ToolSource → Dict Value → List (Dict Value)
unfolding catalog_entry get_policy
tool_entry rt registry source item = named_entry rt registry source item (get "name" item)

unfoldable pub tool_entries :
    Runtime → ToolRegistry → ToolSource → List (Dict Value) → List (Dict Value)
unfolding tool_entry
tool_entries rt registry source [] = []
tool_entries rt registry source (item ∷ items) =
    tool_entry rt registry source item ++ tool_entries rt registry source items

-- What `list_tools` of a source comes to.
abbrev pub Listing : Type 0
Listing = ToolSource → Outcome (List (Dict Value))

abbrev pub Catalog : Type 0
Catalog = List (Dict Value) × List UnknownItem

unfoldable pub unavailable : ToolSource → Exception → Outcome UnknownItem
unfolding text_take
unavailable source exception =
    unknown_item "tool_catalog_unavailable"
      (source_text source
        <> (" MCP tool catalog is unavailable: " <> text_take 1000 (exception_text exception)))
      none none

-- One round of the loop over the sources.
unfoldable pub add_source :
    Runtime → ToolRegistry → ToolSource → Outcome (List (Dict Value)) → Catalog → Outcome Catalog
unfolding unavailable tool_entries
add_source rt registry source (raised exception) (catalog, unknowns) =
    unavailable source exception >>= λ unknown. ok (catalog, unknowns ++ unknown ∷ [])
add_source rt registry source (ok items) (catalog, unknowns) =
    ok (catalog ++ tool_entries rt registry source items, unknowns)

unfoldable pub add_sources :
    Runtime → ToolRegistry → Listing → List ToolSource → Catalog → Outcome Catalog
unfolding add_source
add_sources rt registry listing [] c = ok c
add_sources rt registry listing (source ∷ sources) c =
    add_source rt registry source (listing source) c >>= λ next.
    add_sources rt registry listing sources next

-- `_load_tool_catalog()`
unfoldable pub load_tool_catalog : Runtime → ToolRegistry → Listing → Outcome Catalog
unfolding add_sources
load_tool_catalog rt registry listing = add_sources rt registry listing source_names ([], [])
