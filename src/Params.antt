-- ===== src/Params.antt =====
-- crates/datboi-core/src/params.rs: the params of extractor and deflate recipes.
pub mod Defs
pub mod Windows
