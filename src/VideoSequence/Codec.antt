-- ===== src/VideoSequence/Codec.antt =====
-- The binary form of a fingerprint: `encode`, and `decode` with its reads at a moving offset. A byte
-- string is a list of numbers.
pub mod RoundTrip
pub mod Reads
pub mod Canonical
use sooqa.Prelude.{
  ℕ, zero, suc, ◌+◌, ◌-◌, ◌*◌, ◌%◌, ◌^◌, List, [], ◌∷◌, ◌++◌, Option, none, some, not, ◌||◌, ◌&&◌,
  length, take, drop, get_or, get_range?, ltb, leb, ◌==◌, if◌then◌else◌, Bool, true, false,
}
use sooqa.Prelude.{Result, ok, err, ◌>>=◌, ◌>>◌, fail_if, ok_or, get_elem?}
use sooqa.Prelude.Bytes.{to_le_bytes, from_le_bytes, i8_to_u8, u8_to_i8}
use sooqa.VideoSequence.Defs.{
  Sample, Fingerprint, FingerprintVersion, VideoSequenceError, truncated, encoded_too_large,
  invalid_magic, unsupported_codec_version, invalid_sample_count, invalid_reserved_header,
  trailing_bytes, video_sequence_magic, codec_v1, max_samples, header_bytes, sample_bytes,
  max_encoded_bytes, checked_add, checked_mul, validate_grid, validate_samples, new,
}

-- The body of the loop of `encode`.
unfoldable pub encode_sample : Sample → List ℕ
encode_sample s =
    to_le_bytes 8 s.phash
    ++ (to_le_bytes 8 s.dhash
        ++ (s.mean_luma
            ∷ i8_to_u8 s.mean_chroma_u
            ∷ i8_to_u8 s.mean_chroma_v
            ∷ (to_le_bytes 2 s.information_bps ++ to_le_bytes 2 s.transition_bps)))

unfoldable pub encode_samples : List Sample → List ℕ
encode_samples [] = []
encode_samples (s ∷ rest) = encode_sample s ++ encode_samples rest

unfoldable pub encode_header : Fingerprint → List ℕ
encode_header f =
    video_sequence_magic
    ++ (to_le_bytes 2 codec_v1
        ++ (to_le_bytes 2 (length f.samples % 2 ^ 16)
            ++ (to_le_bytes 8 f.duration_ms ++ (to_le_bytes 4 f.interval_ms ++ to_le_bytes 4 0))))

-- The check of the algorithm version cannot fail: the type has one value.
unfoldable pub encode : Fingerprint → Result VideoSequenceError (List ℕ)
encode f = do
  validate_grid f.duration_ms f.interval_ms (length f.samples)
  validate_samples f.samples
  ok (encode_header f ++ encode_samples f.samples)

-- A read at an offset returns the value and the offset behind it.
unfoldable pub read_u8 : List ℕ → ℕ → Result VideoSequenceError (ℕ × ℕ)
read_u8 encoded offset = do
  value ← ok_or (get_elem? encoded offset) truncated
  ok (value, offset + 1)

-- `read_u16` and `read_u64` are this at 2 and 8 bytes.
unfoldable pub read_word : ℕ → List ℕ → ℕ → Result VideoSequenceError (ℕ × ℕ)
read_word width encoded offset = do
  end ← ok_or (checked_add offset width) truncated
  bytes ← ok_or (get_range? encoded offset end) truncated
  ok (from_le_bytes bytes, end)

-- The body of the loop of `decode`.
unfoldable pub read_sample : List ℕ → ℕ → Result VideoSequenceError (Sample × ℕ)
read_sample encoded offset = do
  (phash, at1) ← read_word 8 encoded offset
  (dhash, at2) ← read_word 8 encoded at1
  (mean_luma, at3) ← read_u8 encoded at2
  (chroma_u, at4) ← read_u8 encoded at3
  (chroma_v, at5) ← read_u8 encoded at4
  (information_bps, at6) ← read_word 2 encoded at5
  (transition_bps, at7) ← read_word 2 encoded at6
  ok (
    record {
      phash = phash;
      dhash = dhash;
      mean_luma = mean_luma;
      mean_chroma_u = u8_to_i8 chroma_u;
      mean_chroma_v = u8_to_i8 chroma_v;
      information_bps = information_bps;
      transition_bps = transition_bps;
    },
    at7,
  )

unfoldable pub read_samples : ℕ → List ℕ → ℕ → Result VideoSequenceError (List Sample)
read_samples zero encoded offset = ok []
read_samples (suc n) encoded offset = do
  (s, next) ← read_sample encoded offset
  rest ← read_samples n encoded next
  ok (s ∷ rest)

-- Rust's `encoded[i..j]` where the length was checked before.
abbrev pub slice : List ℕ → ℕ → ℕ → List ℕ
slice xs i j = take (j - i) (drop i xs)

-- `encoded[..4] != VIDEO_SEQUENCE_MAGIC`
abbrev pub has_magic : List ℕ → Bool
has_magic (a ∷ b ∷ c ∷ d ∷ rest) = a == b'S' && (b == b'Q' && (c == b'V' && d == b'S'))
has_magic _ = false

abbrev pub header_count : List ℕ → ℕ
header_count encoded = from_le_bytes (slice encoded 6 8)

-- `sample_count` is at most 2048, so the checked arithmetic on the length does not fail.
unfoldable pub decode : List ℕ → Result VideoSequenceError Fingerprint
decode encoded = do
  fail_if (ltb max_encoded_bytes (length encoded)) (encoded_too_large max_encoded_bytes)
  fail_if (ltb (length encoded) header_bytes) truncated
  fail_if (not (has_magic encoded)) invalid_magic
  fail_if (not (from_le_bytes (slice encoded 4 6) == codec_v1))
      (unsupported_codec_version (from_le_bytes (slice encoded 4 6)))
  fail_if (header_count encoded == 0 || ltb max_samples (header_count encoded))
      (invalid_sample_count (header_count encoded))
  fail_if (not (from_le_bytes (slice encoded 20 24) == 0)) invalid_reserved_header
  sample_size ←
      ok_or (checked_mul (header_count encoded) sample_bytes) (encoded_too_large max_encoded_bytes)
  expected_len ← ok_or (checked_add header_bytes sample_size) (encoded_too_large max_encoded_bytes)
  fail_if (ltb (length encoded) expected_len) truncated
  fail_if (ltb expected_len (length encoded)) trailing_bytes
  samples ← read_samples (header_count encoded) encoded header_bytes
  new (from_le_bytes (slice encoded 8 16)) (from_le_bytes (slice encoded 16 20)) samples
