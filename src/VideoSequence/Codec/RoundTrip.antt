-- ===== src/VideoSequence/Codec/RoundTrip.antt =====
-- `decode` reads back what `encode` wrote. A read at an offset is followed by what stands in the
-- byte string from there on.
use sooqa.Prelude.{
  ℕ, ◌+◌, ◌*◌, ◌%◌, ◌^◌, ◌<◌, ◌≤◌, ◌≡◌, refl, ap, ◌∙◌, List, [], ◌∷◌, ◌++◌, arith, length, drop,
  drop-append_front, drop-add, get_elem?-drop, get_range?-at, All, lt→ltb,
}
use sooqa.Prelude.{ok}
use sooqa.Prelude.Bytes.{
  to_le_bytes, from_le_bytes, length-to_le_bytes, from_le_bytes-to_le_bytes, i8_to_u8,
  u8_to_i8-i8_to_u8,
}
use sooqa.VideoSequence.Defs.{Sample, SampleFits, Fingerprint, FingerprintFits}
use sooqa.VideoSequence.Codec.{
  encode_sample, encode_samples, encode_header, encode, read_u8, read_word, read_sample,
  read_samples, decode, slice,
}
use sooqa.Prelude.{true}
use sooqa.VideoSequence.Defs.{
  IsValid, validate_grid, validate_samples, new, FingerprintVersion, video_sequence_v1,
}
use sooqa.Prelude.{>>=-eq-ok}
use sooqa.VideoSequence.Codec.{has_magic, header_count}

module _ (encoded : List ℕ) where
  -- A word of `w` bytes stands at the offset: it is read, and the rest stands behind it.
  read_word_at :
      (w offset v : ℕ) (rest : List ℕ)
      → 0 < w
      → v < 256 ^ w
      → offset + w < 2 ^ 64
      → drop offset encoded ≡ to_le_bytes w v ++ rest
      → (read_word w encoded offset ≡ ok (v, offset + w)) × (drop (offset + w) encoded ≡ rest)
  unfolding read_word
  read_word_at w offset v rest hw hv ho h = (
    rw (lt→ltb (offset + w) (2 ^ 64) ho, read_word)
        (rw (get_range?-at encoded (to_le_bytes w v) rest offset w hw (length-to_le_bytes w v) h)
          (ap (λ (x : ℕ). ok (x, offset + w)) (from_le_bytes-to_le_bytes w v hv))),
    drop-add offset w encoded
        ∙ ap (drop w) h
        ∙ drop-append_front w (to_le_bytes w v) rest (length-to_le_bytes w v),
  )

  read_u8_at :
      (offset b : ℕ) (rest : List ℕ)
      → drop offset encoded ≡ b ∷ rest
      → (read_u8 encoded offset ≡ ok (b, offset + 1)) × (drop (offset + 1) encoded ≡ rest)
  unfolding read_u8
  read_u8_at offset b rest h =
      (rw (get_elem?-drop offset encoded h), drop-add offset 1 encoded ∙ ap (drop 1) h)

  -- A sample of 23 bytes stands at the offset.
  read_sample_at :
      (s : Sample) (offset : ℕ) (rest : List ℕ)
      → SampleFits s
      → offset < 2 ^ 32
      → drop offset encoded ≡ encode_sample s ++ rest
      → (read_sample encoded offset ≡ ok (s, offset + 23)) × (drop (offset + 23) encoded ≡ rest)
  unfolding read_sample encode_sample
  read_sample_at s offset rest fits ho h =
      let tail2 : List ℕ = to_le_bytes 2 s.transition_bps ++ rest in
      let tail1 : List ℕ = to_le_bytes 2 s.information_bps ++ tail2 in
      let bytes : List ℕ =
        s.mean_luma ∷ i8_to_u8 s.mean_chroma_u ∷ i8_to_u8 s.mean_chroma_v ∷ tail1 in
      let h0 : drop offset encoded ≡ to_le_bytes 8 s.phash ++ (to_le_bytes 8 s.dhash ++ bytes) =
        h ∙ refl in
      let (r1, h1) =
        read_word_at 8 offset s.phash _ (omega arith) fits.phash_fits (omega arith) h0 in
      let (r2, h2) =
        read_word_at 8 (offset + 8) s.dhash bytes (omega arith) fits.dhash_fits (omega arith) h1 in
      let (r3, h3) = read_u8_at (offset + 8 + 8) _ _ h2 in
      let (r4, h4) = read_u8_at (offset + 8 + 8 + 1) _ _ h3 in
      let (r5, h5) = read_u8_at (offset + 8 + 8 + 1 + 1) _ _ h4 in
      let (r6, h6) =
        read_word_at 2 (offset + 8 + 8 + 1 + 1 + 1) s.information_bps tail2 (omega arith)
          fits.information_fits (omega arith) h5 in
      let (r7, h7) =
        read_word_at 2 (offset + 8 + 8 + 1 + 1 + 1 + 2) s.transition_bps rest (omega arith)
          fits.transition_fits (omega arith) h6 in
      let e : offset + 8 + 8 + 1 + 1 + 1 + 2 + 2 ≡ offset + 23 = omega arith in
      (
        rw r1 (
            rw r2 (
              rw r3 (
                rw r4 (
                  rw r5 (
                    rw r6 (
                      rw r7 (
                        rw
                          (
                            e,
                            u8_to_i8-i8_to_u8 s.mean_chroma_u fits.chroma_u_fits,
                            u8_to_i8-i8_to_u8 s.mean_chroma_v fits.chroma_v_fits,
                          )
                          refl))))))),
        rw e at h7,
      )

  read_samples_at :
      (samples : List Sample) (offset : ℕ)
      → All SampleFits samples
      → offset + 23 * length samples < 2 ^ 32
      → drop offset encoded ≡ encode_samples samples
      → read_samples (length samples) encoded offset ≡ ok samples
  unfolding read_samples encode_samples
  read_samples_at [] offset fits ho h = refl
  read_samples_at (s ∷ rest) offset (fs, fits) ho h =
      let (r, h') = read_sample_at s offset (encode_samples rest) fs (omega arith) h in
      rw r (rw (read_samples_at rest (offset + 23) fits (omega arith) h'))

  -- What `decode` asks of the header, and what it then returns.
  decode_header :
      (n : ℕ) (samples : List Sample)
      → 0 < n
      → n ≤ 2048
      → length encoded ≡ 24 + n * 23
      → has_magic encoded ≡ true
      → from_le_bytes (slice encoded 4 6) ≡ 1
      → header_count encoded ≡ n
      → from_le_bytes (slice encoded 20 24) ≡ 0
      → read_samples n encoded 24 ≡ ok samples
      → decode encoded
        ≡ new (from_le_bytes (slice encoded 8 16)) (from_le_bytes (slice encoded 16 20)) samples
  unfolding decode
  decode_header n samples h0 hn hl hm hc hcount hres hs = ground arith

length-encode_samples :
    (samples : List Sample) → length (encode_samples samples) ≡ length samples * 23
unfolding encode_samples encode_sample
length-encode_samples [] = omega arith
length-encode_samples (s ∷ rest) = omega (arith, length-encode_samples rest)

-- A fingerprint that was encoded had passed the checks.
encode-ok :
    (f : Fingerprint) (bytes : List ℕ)
    → encode f ≡ ok bytes
    → IsValid f × (bytes ≡ encode_header f ++ encode_samples f.samples)
unfolding encode
encode-ok f bytes h =
    let (_, grid, h1) =
      >>=-eq-ok (validate_grid f.duration_ms f.interval_ms (length f.samples)) _ h in
    let (_, scores, h2) = >>=-eq-ok (validate_samples f.samples) _ h1 in
    (record { grid = grid; scores = scores }, cc h2)

grid_count : (d i n : ℕ) → validate_grid d i n ≡ ok tt → (0 < n) × (n ≤ 2048)
unfolding validate_grid
grid_count d i n h = ground arith

new-valid : (f : Fingerprint) → IsValid f → new f.duration_ms f.interval_ms f.samples ≡ ok f
unfolding new
new-valid f v = rw v.grid (rw v.scores (λ i. ok (record f { version = only f.version i })))
  where
    only : (v : FingerprintVersion) → video_sequence_v1 ≡ v
    only video_sequence_v1 = refl

length-encode_header : (f : Fingerprint) → length (encode_header f) ≡ 24
unfolding encode_header
length-encode_header f = refl

decode-written :
    (f : Fingerprint)
    → FingerprintFits f
    → IsValid f
    → decode (encode_header f ++ encode_samples f.samples) ≡ ok f
unfolding encode_header
decode-written f fits v =
    let n : ℕ = length f.samples in
    let (h0, hn) = grid_count f.duration_ms f.interval_ms n v.grid in
    let bytes : List ℕ = encode_header f ++ encode_samples f.samples in
    let count : n % 2 ^ 16 ≡ n = omega arith in
    let word : (w v : ℕ) → v < 256 ^ w → from_le_bytes (to_le_bytes w v) ≡ v =
      from_le_bytes-to_le_bytes in
    let d : from_le_bytes (slice bytes 8 16) ≡ f.duration_ms =
      word 8 f.duration_ms fits.duration_fits in
    let i : from_le_bytes (slice bytes 16 20) ≡ f.interval_ms =
      word 4 f.interval_ms fits.interval_fits in
    decode_header bytes n f.samples h0 hn (omega (arith, length-encode_samples f.samples)) refl refl
      (word 2 (n % 2 ^ 16) (omega arith) ∙ count) refl
      (read_samples_at bytes f.samples 24 fits.samples_fit (omega arith) refl)
    ∙ rw (d, i) (new-valid f v)

-- Of a fingerprint whose fields lie in the ranges of their Rust types: what `encode` writes for it,
-- `decode` reads back as the same fingerprint.
pub decode-encode :
    (f : Fingerprint) (bytes : List ℕ)
    → FingerprintFits f
    → encode f ≡ ok bytes
    → decode bytes ≡ ok f
decode-encode f bytes fits h = let (v, e) = encode-ok f bytes h in rw e (decode-written f fits v)
