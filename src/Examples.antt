-- ===== src/Examples.antt =====
-- Runs of the modelled code on concrete inputs.
pub mod Inputs
pub mod CborRuns
pub mod AssembleRuns
pub mod ObjectRuns
pub mod SnapshotRuns
pub mod PipeRuns
pub mod SkipperRuns
pub mod ExecRuns
pub mod RibltRuns
pub mod DecoderRuns
pub mod ReconRuns
pub mod JunkRuns
