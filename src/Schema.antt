-- ===== src/Schema.antt =====
-- schemas/*.py, services/model_contracts.py, tools/result.py and tools/registry.py: the records
-- that the nodes exchange. A constructor whose arguments can break a declared bound is a
-- function that raises; a value copied from a field with the same bounds is not checked again.
pub mod Investigation
pub mod Evidence
pub mod Decisions
pub mod Report
