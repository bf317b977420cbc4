-- ===== src/VideoSequence/Defs.antt =====
-- The data of video_sequence.rs, with the checks that every fingerprint passes. A `u8`, `u16`, `u32`
-- or `u64` is a number, with its range in `SampleFits` and `FingerprintFits`; an `i8` is an integer.
use sooqa.Prelude.{ℕ, ◌+◌, ◌-◌, ◌*◌, ◌<◌, ◌^◌, max, List, [], ◌∷◌, Option, none, some, ◌||◌, not}
use sooqa.Prelude.{leb, ltb, ◌==◌, if◌then◌else◌, div_ceil, length, All}
use sooqa.Prelude.{Result, ok, ◌>>=◌, ◌>>◌, fail_if, ok_or}
use sooqa.Prelude.{◌≡◌}
use sooqa.Prelude.Int.{ℤ}
use sooqa.Prelude.Bytes.{IsI8}

-- fingerprint.rs
pub data FingerprintVersion : Type 0 where
  video_sequence_v1 : FingerprintVersion

pub data VideoSequenceError : Type 0 where
  invalid_duration invalid_interval invalid_timestamp_grid : VideoSequenceError
  truncated invalid_magic invalid_reserved_header trailing_bytes : VideoSequenceError
  invalid_sample_count invalid_first_transition : ℕ → VideoSequenceError
  invalid_information_score invalid_transition_score : ℕ → VideoSequenceError
  encoded_too_large unsupported_codec_version : ℕ → VideoSequenceError
  unsupported_algorithm : FingerprintVersion → VideoSequenceError

pub record Sample : Type 0 where
  pub phash : ℕ
  pub dhash : ℕ
  pub mean_luma : ℕ
  pub mean_chroma_u : ℤ
  pub mean_chroma_v : ℤ
  pub information_bps : ℕ
  pub transition_bps : ℕ

pub record Fingerprint : Type 0 where
  pub version : FingerprintVersion
  pub duration_ms : ℕ
  pub interval_ms : ℕ
  pub samples : List Sample

-- The ranges of the Rust field types.
pub record SampleFits (s : Sample) : Type 0 where
  pub phash_fits : s.phash < 2 ^ 64
  pub dhash_fits : s.dhash < 2 ^ 64
  pub luma_fits : s.mean_luma < 2 ^ 8
  pub chroma_u_fits : IsI8 s.mean_chroma_u
  pub chroma_v_fits : IsI8 s.mean_chroma_v
  pub information_fits : s.information_bps < 2 ^ 16
  pub transition_fits : s.transition_bps < 2 ^ 16

pub record FingerprintFits (f : Fingerprint) : Type 0 where
  pub duration_fits : f.duration_ms < 2 ^ 64
  pub interval_fits : f.interval_ms < 2 ^ 32
  pub samples_fit : All SampleFits f.samples

abbrev pub video_sequence_magic : List ℕ
video_sequence_magic = b'S' ∷ b'Q' ∷ b'V' ∷ b'S' ∷ []

abbrev pub codec_v1 : ℕ
codec_v1 = 1

abbrev pub base_interval_ms : ℕ
base_interval_ms = 500

abbrev pub max_samples : ℕ
max_samples = 2048

abbrev pub max_score_bps : ℕ
max_score_bps = 10000

abbrev pub header_bytes : ℕ
header_bytes = 24

abbrev pub sample_bytes : ℕ
sample_bytes = 23

abbrev pub max_encoded_bytes : ℕ
max_encoded_bytes = header_bytes + max_samples * sample_bytes

abbrev pub u64_mod : ℕ
u64_mod = 2 ^ 64

-- `VIDEO_SEQUENCE_BASE_INTERVAL_MS.max(duration_ms.div_ceil(VIDEO_SEQUENCE_MAX_SAMPLES))`
abbrev pub grid_interval : ℕ → ℕ
grid_interval duration_ms = max base_interval_ms (div_ceil duration_ms max_samples)

-- `checked_mul` on `u64`
abbrev pub checked_mul : ℕ → ℕ → Option ℕ
checked_mul a b = if ltb (a * b) u64_mod then some (a * b) else none

-- `checked_add` on `u64` and on a 64-bit `usize`
abbrev pub checked_add : ℕ → ℕ → Option ℕ
checked_add a b = if ltb (a + b) u64_mod then some (a + b) else none

-- `usize` has 64 bits, so `usize::try_from` of a `u64` does not fail.
unfoldable pub validate_grid : ℕ → ℕ → ℕ → Result VideoSequenceError (Unit {0})
validate_grid duration_ms interval_ms sample_count = do
  fail_if (duration_ms == 0) invalid_duration
  fail_if (interval_ms == 0) invalid_interval
  fail_if (not (interval_ms == grid_interval duration_ms)) invalid_timestamp_grid
  fail_if (sample_count == 0 || ltb max_samples sample_count) (invalid_sample_count sample_count)
  fail_if (not (sample_count == div_ceil duration_ms (grid_interval duration_ms)))
      invalid_timestamp_grid
  last_timestamp ← ok_or (checked_mul interval_ms (sample_count - 1)) invalid_timestamp_grid
  fail_if (leb duration_ms last_timestamp) invalid_timestamp_grid

unfoldable pub validate_scores : List Sample → Result VideoSequenceError (Unit {0})
validate_scores [] = ok tt
validate_scores (s ∷ rest) = do
  fail_if (ltb max_score_bps s.information_bps) (invalid_information_score s.information_bps)
  fail_if (ltb max_score_bps s.transition_bps) (invalid_transition_score s.transition_bps)
  validate_scores rest

-- `if let Some(first) = samples.first() && first.transition_bps != 0`
unfoldable pub validate_first : List Sample → Result VideoSequenceError (Unit {0})
validate_first [] = ok tt
validate_first (s ∷ rest) =
    fail_if (not (s.transition_bps == 0)) (invalid_first_transition s.transition_bps)

unfoldable pub validate_samples : List Sample → Result VideoSequenceError (Unit {0})
unfolding validate_first validate_scores
validate_samples samples = do validate_first samples; validate_scores samples

-- `VideoSequenceFingerprint::new`
unfoldable pub new : ℕ → ℕ → List Sample → Result VideoSequenceError Fingerprint
new duration_ms interval_ms samples = do
  validate_grid duration_ms interval_ms (length samples)
  validate_samples samples
  ok (record {
    version = video_sequence_v1;
    duration_ms = duration_ms;
    interval_ms = interval_ms;
    samples = samples;
  })

-- What a fingerprint satisfies that `new` returned.
pub record IsValid (f : Fingerprint) : Type 0 where
  pub grid : validate_grid f.duration_ms f.interval_ms (length f.samples) ≡ ok tt
  pub scores : validate_samples f.samples ≡ ok tt
