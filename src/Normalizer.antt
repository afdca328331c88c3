-- ===== src/Normalizer.antt =====
-- tools/normalizer.py: tool replies become evidence, and evidence is merged by id.
pub mod Merge
pub mod Fields
pub mod Rows
pub mod Build
pub mod Capacity
pub mod Ids
