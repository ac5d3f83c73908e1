-- ===== src/Snapshot.antt =====
-- crates/datboi-core/src/snapshot.rs: state snapshots, alias batches and analysis batches.
pub mod Defs
pub mod Batches
pub mod Payload
pub mod Decoding
pub mod Envelope
pub mod Opening
pub mod Signed
pub mod Order
