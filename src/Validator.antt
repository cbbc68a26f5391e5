-- ===== src/Validator.antt =====
-- The chain validators: crates/metashrew-validator-core/src.
pub mod Wire
pub mod Target
pub mod Policy
