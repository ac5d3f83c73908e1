-- ===== src/Skipper.antt =====
-- crates/datboi-formats/src/skipper.rs: the header skippers, which find the part of a file that a
-- dat describes.
pub mod Operations
pub mod Defs
pub mod Swaps
pub mod Fulfils
pub mod Reading
pub mod Tests
pub mod Evaluate
pub mod Restore
pub mod Words
pub mod Text
pub mod Xml
pub mod Detectors
pub mod Accepts
pub mod Parsing
pub mod HexText
