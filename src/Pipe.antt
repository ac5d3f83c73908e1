-- ===== src/Pipe.antt =====
-- crates/datboi-runtime/src/pipe.rs: the bounded byte pipe between the nodes of an operator tree.
pub mod Defs
pub mod Steps
pub mod Pending
pub mod Order
pub mod Progress
pub mod Drain
