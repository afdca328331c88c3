-- ===== src/Registry.antt =====
-- tools/registry.py: the tool allowlist and the guards on a planned call.
mod Policy
mod Window
pub mod Default
pub mod Guards
pub mod Widening
unfoldable pub use Policy.*
unfoldable pub use Window.*
