-- ===== src/Alignment.antt =====
-- The alignment of two video sequences (crates/media/src/sequence_alignment.rs): the score of a pair
-- of samples, the table of local alignments, the path back through it, the evidence drawn from the
-- path, and its classification.
pub mod Config
pub mod Score
pub mod Table
pub mod Backtrack
pub mod Evidence
pub mod Align
mod Tests
