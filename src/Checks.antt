-- ===== src/Checks.antt =====
-- evals/properties.py: what must hold between a report and the evidence it was written from.
pub mod Documents
pub mod Dumped
pub mod Counts
pub mod References
pub mod Claims
pub mod Omission
pub mod Limits
pub mod Suite
