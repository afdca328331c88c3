-- ===== src/Templates.antt =====
-- services/templates.py and services/template_contract.py: which report is written, and over what
-- window and within what limits the evidence for it is collected.
pub mod Contract
pub mod Select
pub mod Window
pub mod Limits
