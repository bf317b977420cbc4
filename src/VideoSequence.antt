-- ===== src/VideoSequence.antt =====
-- Video sequence fingerprints (crates/media/src/video_sequence.rs): the sample grid of a video, the
-- checks on a fingerprint, its binary form, and the search tokens drawn from it.
pub mod Defs
pub mod Grid
pub mod Codec
pub mod Tokens
mod Tests
pub use Defs.{Sample, Fingerprint, FingerprintVersion, VideoSequenceError}
