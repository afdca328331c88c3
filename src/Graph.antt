-- ===== src/Graph.antt =====
-- graph/routing.py and graph/builder.py: the hard stops, the edges, and runs of the graph.
mod Routing
mod Topology
mod Effects
pub mod Budget
pub mod Turn
pub mod Outputs
pub mod Drafts
pub mod Guard
pub mod Bound
unfoldable pub use Routing.*
unfoldable pub use Topology.*
