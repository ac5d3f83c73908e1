-- ===== src/Cbor.antt =====
-- crates/datboi-core/src/cbor.rs: the canonical CBOR subset, its encoder and its decoder.
pub mod Value
pub mod Encode
pub mod Decode
pub mod Head
pub mod Reading
pub mod HeadSound
pub mod Canonical
pub mod RoundTrip
pub mod SequencesSound
pub mod Accepts
pub mod Sorting
pub mod Normal
pub mod Codec
pub mod Access
pub mod Fields
