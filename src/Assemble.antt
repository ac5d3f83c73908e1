-- ===== src/Assemble.antt =====
-- crates/datboi-core/src/assemble.rs: the `assemble@1` builtin.
pub mod Defs
pub mod Pieces
pub mod Output
pub mod Merge
pub mod Translate
pub mod Reader
pub mod Reading
pub mod Params
pub mod ParamsCodec
