-- ===== src/Nodes.antt =====
-- graph/deterministic_nodes.py, graph/live_nodes.py and graph/report_nodes.py: a node is a
-- function from the state to the updated state.
pub mod World
pub mod Hosts
pub mod Phenomenon
pub mod Hypotheses
pub mod Planner
pub mod Router
pub mod Executor
pub mod Evidence
pub mod Updater
pub mod Package
pub mod Writer
pub mod Budgets
pub mod References
pub mod Citations
pub mod Questions
