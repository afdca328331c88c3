-- ===== src/Service/Catalog/Laws.antt =====
-- The catalog is loaded whatever the servers do, and offers allowed tools only.
use aiops_rca_orchestrator.Common.{
  ℕ, ◌+◌, ◌≤◌, ◌≡◌, refl, ◌∙◌, Bool, true, false, ◌&&◌, String, List, [], ◌∷◌, ◌++◌, all, ◌=ₜ◌,
  length, length-append, arith, inl, inr, Bool-cases,
}
use aiops_rca_orchestrator.Common.Laws.{all-append}
use aiops_rca_orchestrator.Common.Dict.{Dict}
use aiops_rca_orchestrator.Common.Text.{◌<>◌, text_length, text_take, within, within_optional}
use aiops_rca_orchestrator.Common.TextLaws.{text_length-append, text_length-take}
use aiops_rca_orchestrator.Common.Value.{Value, str, get, Runtime}
use aiops_rca_orchestrator.Common.Outcome.{Outcome, Exception, ok, raised, require, ◌>>=◌}
use aiops_rca_orchestrator.Sources.{
  ToolSource, zabbix, elasticsearch, wazuh, source_eq, source_text, source_names,
}
use aiops_rca_orchestrator.Schema.Investigation.{UnknownItem, unknown_item}
use aiops_rca_orchestrator.Registry.{ToolPolicy, ToolRegistry, get_policy}
use aiops_rca_orchestrator.Nodes.World.{exception_text}
use aiops_rca_orchestrator.Service.Catalog.{
  known_entry, named_entry, open_to, tool_entry, tool_entries, catalog_entry, Listing, Catalog,
  unavailable, add_source, add_sources, load_tool_catalog,
}

-- The name of an entry is that of a tool that the registry holds and does not block.
offered_policy : Outcome ToolPolicy → Bool
offered_policy (ok policy) = open_to policy.source policy
offered_policy (raised e) = false

offered_name : ToolRegistry → Value → Bool
unfolding offered_policy
offered_name registry (str name) = offered_policy (get_policy registry name)
offered_name registry _ = false

pub offered : ToolRegistry → Dict Value → Bool
unfolding offered_name
offered registry entry = offered_name registry (get "name" entry)

-- One for a source that did not answer.
pub missing : Outcome (List (Dict Value)) → ℕ
missing (ok items) = 0
missing (raised e) = 1

-- How many of the sources did not answer.
pub silent : Listing → List ToolSource → ℕ
silent listing [] = 0
silent listing (source ∷ sources) = missing (listing source) + silent listing sources

code-within : within 1 100 "tool_catalog_unavailable" ≡ true
unfolding within text_length
code-within = refl

both : (a b : Bool) → a ≡ true → b ≡ true → (a && b) ≡ true
both a b h k = ground arith

source_text-short : (source : ToolSource) → text_length (source_text source) ≤ 20
unfolding text_length
source_text-short zabbix = omega arith
source_text-short elasticsearch = omega arith
source_text-short wazuh = omega arith

notice-short : text_length " MCP tool catalog is unavailable: " ≡ 34
unfolding text_length
notice-short = refl

message-within :
    (source : ToolSource) (text : String)
    → within 1 2000
        (source_text source <> (" MCP tool catalog is unavailable: " <> text_take 1000 text))
      ≡ true
unfolding within
message-within source text =
    let cut = text_take 1000 text in
    ground (
      arith,
      source_text-short source,
      notice-short,
      text_length-take 1000 text,
      text_length-append (source_text source) (" MCP tool catalog is unavailable: " <> cut),
      text_length-append " MCP tool catalog is unavailable: " cut,
    )

required-met {ℓ} :
    {A : Type ℓ} (b : Bool) (e : Exception) (x : A)
    → b ≡ true
    → (y : A) × ((require b e >>= λ _. ok x) ≡ ok y)
required-met b e x h = (x, rw h)

unavailable-ok :
    (source : ToolSource) (e : Exception) → (u : UnknownItem) × (unavailable source e ≡ ok u)
unfolding unavailable unknown_item within_optional
unavailable-ok source e =
    required-met _ _ _
      (both _ _ code-within (both _ _ (message-within source (exception_text e)) refl))

source_eq_refl : (source : ToolSource) → source_eq source source ≡ true
source_eq_refl zabbix = refl
source_eq_refl elasticsearch = refl
source_eq_refl wazuh = refl

open_to-own :
    (source : ToolSource) (p : ToolPolicy) → open_to source p ≡ true → open_to p.source p ≡ true
open_to-own source p h = ground (arith, source_eq_refl p.source)

entry-name :
    (rt : Runtime) (source : ToolSource) (p : ToolPolicy) (name : String) (item : Dict Value)
    → get "name" (catalog_entry rt source p name item) ≡ str name
unfolding catalog_entry ◌=ₜ◌
entry-name rt source p name item = refl

known-offered :
    (rt : Runtime) (registry : ToolRegistry) (source : ToolSource) (name : String)
    (item : Dict Value) (o : Outcome ToolPolicy)
    → get_policy registry name ≡ o
    → all (offered registry) (known_entry rt source name item o) ≡ true
unfolding offered offered_name offered_policy
known-offered rt registry source name item (raised e) h = refl
known-offered rt registry source name item (ok p) h = elim (Bool-cases (open_to source p)) [
  | inl fits ↦ rw (fits, entry-name rt source p name item, h, open_to-own source p fits) refl
  | inr closed ↦ rw closed refl
]

named-offered :
    (rt : Runtime) (registry : ToolRegistry) (source : ToolSource) (item : Dict Value)
    (name : Value)
    → all (offered registry) (named_entry rt registry source item name) ≡ true
named-offered rt registry source item (str name) =
    known-offered rt registry source name item (get_policy registry name) refl
named-offered rt registry source item _ = refl

entries-offered :
    (rt : Runtime) (registry : ToolRegistry) (source : ToolSource) (items : List (Dict Value))
    → all (offered registry) (tool_entries rt registry source items) ≡ true
unfolding tool_entries tool_entry
entries-offered rt registry source [] = refl
entries-offered rt registry source (item ∷ items) =
    all-append (offered registry) (tool_entry rt registry source item)
      (tool_entries rt registry source items)
    ∙ both _ _ (named-offered rt registry source item (get "name" item))
        (entries-offered rt registry source items)

-- A catalog of tools on offer, with so many more unknowns than there were.
abbrev Grown : ToolRegistry → List UnknownItem → ℕ → Catalog → Type 0
Grown registry unknowns n c =
    (all (offered registry) c.0 ≡ true) × (length c.1 ≡ length unknowns + n)

add_source-Grown :
    (rt : Runtime) (registry : ToolRegistry) (source : ToolSource)
    (listed : Outcome (List (Dict Value))) (catalog : List (Dict Value))
    (unknowns : List UnknownItem)
    → all (offered registry) catalog ≡ true
    → (next : Catalog) × (add_source rt registry source listed (catalog, unknowns) ≡ ok next)
      × Grown registry unknowns (missing listed) next
unfolding add_source missing
add_source-Grown rt registry source (ok items) catalog unknowns h = (
  (catalog ++ tool_entries rt registry source items, unknowns),
  refl,
  (all-append _ catalog _ ∙ both _ _ h (entries-offered rt registry source items), omega arith),
)
add_source-Grown rt registry source (raised e) catalog unknowns h =
    let (unknown, made) = unavailable-ok source e in
    ((catalog, unknowns ++ unknown ∷ []), rw made, (h, length-append unknowns (unknown ∷ [])))

add_sources-Grown :
    (rt : Runtime) (registry : ToolRegistry) (listing : Listing) (sources : List ToolSource)
    (c : Catalog)
    → all (offered registry) c.0 ≡ true
    → (t : Catalog) × (add_sources rt registry listing sources c ≡ ok t)
      × Grown registry c.1 (silent listing sources) t
unfolding add_sources silent
add_sources-Grown rt registry listing [] c h = (c, refl, (h, omega arith))
add_sources-Grown rt registry listing (source ∷ sources) (catalog, unknowns) h =
    let (next, added, (held, longer)) =
      add_source-Grown rt registry source (listing source) catalog unknowns h in
    let (t, all_added, (all_held, all_longer)) =
      add_sources-Grown rt registry listing sources next held in
    (t, rw added all_added, (all_held, omega arith))

-- Loading the catalog never raises, whichever servers are down: it returns a catalog whose entries
-- all name tools that the registry holds and does not block, and one unknown for each source that
-- did not answer.
pub load_tool_catalog-total :
    (rt : Runtime) (registry : ToolRegistry) (listing : Listing)
    → (t : Catalog) × (load_tool_catalog rt registry listing ≡ ok t)
      × (all (offered registry) t.0 ≡ true)
      × (length t.1 ≡ silent listing source_names)
unfolding load_tool_catalog
load_tool_catalog-total rt registry listing =
    let (t, loaded, (held, counted)) =
      add_sources-Grown rt registry listing source_names ([], []) refl in
    (t, loaded, held, omega arith)
