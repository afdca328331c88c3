-- ===== src/State.antt =====
-- graph/state.py: the state that is checkpointed between the nodes, and what rebuilding it does.
mod Defs
pub mod Trim
pub mod Ceiling
pub mod Validity
unfoldable pub use Defs.*
unfoldable pub use Trim.{
  unknowns_capacity, known_facts_capacity, capacity_notice, is_notice, bound_what_only_grows,
}
unfoldable pub use Validity.{validate_graph_invariants, rebuild}
