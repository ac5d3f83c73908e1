-- ===== src/Object.antt =====
-- crates/datboi-core/src/object.rs: structured-object headers.
pub mod Sniff
pub mod Header
