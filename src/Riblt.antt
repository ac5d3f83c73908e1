-- ===== src/Riblt.antt =====
-- crates/datboi-p2p/src/riblt.rs: the rateless codec by which two peers find the difference of their
-- sets.
pub mod Defs
pub mod Wire
pub mod Sums
pub mod Marks
pub mod Runs
pub mod Undo
pub mod Blocks
pub mod Sweeps
pub mod Window
pub mod Heap
pub mod SiftDown
pub mod SiftUp
pub mod Ready
pub mod Filling
pub mod Peeling
pub mod Ending
pub mod Rounds
pub mod Draining
pub mod Encoding
pub mod Decoder
pub mod Exchange
pub mod Conserved
pub mod Joining
pub mod Recovered
pub mod Decoding
pub mod Balance
