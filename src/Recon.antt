-- ===== src/Recon.antt =====
-- crates/datboi-p2p/src/recon.rs and crates/datboi-p2p/src/recon/envelope.rs: the reconciliation of a
-- scope between two peers.
pub mod Envelope
pub mod Framing
pub mod Stream
pub mod Parts
pub mod Sequence
pub mod Initiator
pub mod Settled
pub mod Report
