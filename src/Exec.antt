-- ===== src/Exec.antt =====
-- crates/datboi-exec: random access to the nodes of an operator tree.
pub mod Defs
pub mod Exact
pub mod Assembled
pub mod Windows
