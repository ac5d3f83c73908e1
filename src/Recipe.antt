-- ===== src/Recipe.antt =====
-- crates/datboi-core/src/recipe.rs: recipe objects.
pub mod Defs
pub mod Encode
pub mod Decode
pub mod Shapes
pub mod Canonical
pub mod Bytes
pub mod Typed
pub mod Valid
