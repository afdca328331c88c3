-- ===== src/Service.antt =====
-- services/investigation.py: what stands around a run of the graph.
pub mod Sections
pub mod Report
pub mod Clarify
pub mod Examples
pub mod Catalog
pub mod Models
pub mod Analyze
pub mod Writer
pub mod Run
