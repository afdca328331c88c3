-- ===== src/Adapter.antt =====
-- tools/adapters/base.py and tools/executor.py: one source's calls, classified.
pub mod Failures
pub mod Classify
pub mod Execute
pub mod Verdicts
pub mod Wiring
