-- ===== src/VideoSequence/Codec/Canonical.antt =====
-- The only byte string that decodes to a fingerprint is the one that `encode` writes for it.
use sooqa.Prelude.{
  ℕ, ◌+◌, ◌*◌, ◌%◌, ◌^◌, ◌<◌, ◌≤◌, ◌≡◌, ap, sym, ◌∙◌, List, ◌∷◌, ◌++◌, arith, length, drop,
  drop_all, All, true, not, ◌||◌, ◌==◌, ltb,
}
use sooqa.Prelude.{ok, ok_or, fail_if, >>=-elim}
use sooqa.Prelude.Bytes.{IsByte, to_le_bytes, from_le_bytes}
use sooqa.VideoSequence.Defs.{
  header_bytes, sample_bytes, max_samples, max_encoded_bytes, checked_mul, codec_v1,
  video_sequence_magic, video_sequence_v1, Sample, Fingerprint, FingerprintFits, checked_add,
  IsValid, validate_grid, validate_samples, new,
}
use sooqa.VideoSequence.Codec.{
  encode_samples, encode_header, encode, read_samples, decode, slice, has_magic, header_count,
}
use mathlib.Core.List.{append-nil}
use mathlib.Core.Path.{subst}
use sooqa.VideoSequence.Codec.Reads.{slice_word, read_samples_ok}

-- The first four bytes of a byte string that has the magic.
has_magic-eq :
    (encoded : List ℕ) → has_magic encoded ≡ true → encoded ≡ video_sequence_magic ++ drop 4 encoded
has_magic-eq (a ∷ b ∷ c ∷ d ∷ rest) h = ground arith
has_magic-eq _ h = absurd (cc h)

module _ (encoded : List ℕ) (bytes : All IsByte encoded) where
  abbrev WordAt : ℕ → ℕ → ℕ → Type 0
  WordAt i w v = drop i encoded ≡ to_le_bytes w v ++ drop (i + w) encoded

  -- The six fields of a header, laid end to end.
  header_fields :
      (n d i : ℕ)
      → 24 ≤ length encoded
      → has_magic encoded ≡ true
      → from_le_bytes (slice encoded 4 6) ≡ 1
      → header_count encoded ≡ n
      → from_le_bytes (slice encoded 8 16) ≡ d
      → from_le_bytes (slice encoded 16 20) ≡ i
      → from_le_bytes (slice encoded 20 24) ≡ 0
      → encoded
        ≡ video_sequence_magic
          ++ (to_le_bytes 2 1
              ++ (to_le_bytes 2 n
                  ++ (to_le_bytes 8 d
                      ++ (to_le_bytes 4 i ++ (to_le_bytes 4 0 ++ drop 24 encoded)))))
  header_fields n d i len magic codec count hd hi res =
      let at : (i w v : ℕ)
          → i + w ≤ length encoded
          → from_le_bytes (slice encoded i (i + w)) ≡ v
          → WordAt i w v =
        λ i w v h e. rw e at (slice_word encoded bytes i w h).0 in
      let add : (w v : ℕ) → List ℕ → List ℕ = λ w v rest. to_le_bytes w v ++ rest in
      let c5 = at 16 4 i (omega arith) hi ∙ ap (add 4 i) (at 20 4 0 (omega arith) res) in
      let c4 = at 8 8 d (omega arith) hd ∙ ap (add 8 d) c5 in
      let c3 = at 6 2 n (omega arith) count ∙ ap (add 2 n) c4 in
      let c2 = at 4 2 1 (omega arith) codec ∙ ap (add 2 1) c3 in
      has_magic-eq encoded magic ∙ ap (λ (r : List ℕ). video_sequence_magic ++ r) c2

  -- What `decode` checked when it returned a fingerprint.
  decode_ok :
      (f : Fingerprint)
      → decode encoded ≡ ok f
      → (samples : List Sample) × (length encoded ≡ 24 + 23 * header_count encoded)
        × (has_magic encoded ≡ true)
        × (from_le_bytes (slice encoded 4 6) ≡ 1)
        × (from_le_bytes (slice encoded 20 24) ≡ 0)
        × (read_samples (header_count encoded) encoded 24 ≡ ok samples)
        × (new (from_le_bytes (slice encoded 8 16)) (from_le_bytes (slice encoded 16 20)) samples
            ≡ ok f)
  unfolding decode
  decode_ok f h = >>=-elim (fail_if (ltb max_encoded_bytes (length encoded)) _) _ h λ _ c1 h1.
      >>=-elim (fail_if (ltb (length encoded) header_bytes) _) _ h1 λ _ c2 h2.
        >>=-elim (fail_if (not (has_magic encoded)) _) _ h2 λ _ c3 h3.
          >>=-elim (fail_if (not (from_le_bytes (slice encoded 4 6) == codec_v1)) _) _ h3 λ _ c4 h4.
            >>=-elim
              (fail_if (header_count encoded == 0 || ltb max_samples (header_count encoded)) _) _ h4
              λ _ c5 h5.
                >>=-elim (fail_if (not (from_le_bytes (slice encoded 20 24) == 0)) _) _ h5
                  λ _ c6 h6.
                    >>=-elim (ok_or (checked_mul (header_count encoded) sample_bytes) _) _ h6
                      λ size c7 h7.
                        >>=-elim (ok_or (checked_add header_bytes size) _) _ h7 λ expected c8 h8.
                          >>=-elim (fail_if (ltb (length encoded) expected) _) _ h8 λ _ c9 h9.
                            >>=-elim (fail_if (ltb expected (length encoded)) _) _ h9 λ _ c10 h10.
                              >>=-elim (read_samples (header_count encoded) encoded header_bytes) _
                                h10
                                λ samples r h11. (
                                  samples,
                                  ground arith,
                                  ground arith,
                                  ground arith,
                                  ground arith,
                                  r,
                                  h11,
                                )

new-ok :
    (d i : ℕ) (samples : List Sample) (f : Fingerprint)
    → new d i samples ≡ ok f
    → IsValid f × (d ≡ f.duration_ms) × (i ≡ f.interval_ms) × (samples ≡ f.samples)
unfolding new
new-ok d i samples f h = >>=-elim (validate_grid d i (length samples)) _ h λ _ g h1.
    >>=-elim (validate_samples samples) _ h1 λ _ s h2.
      let made : Fingerprint = record {
        version = video_sequence_v1;
        duration_ms = d;
        interval_ms = i;
        samples = samples;
      } in
      let e : made ≡ f = cc h2 in
      (
        subst IsValid e (record { grid = g; scores = s }),
        ap (λ (x : Fingerprint). x.duration_ms) e,
        ap (λ (x : Fingerprint). x.interval_ms) e,
        ap (λ (x : Fingerprint). x.samples) e,
      )

counted : {n : ℕ} {xs ys : List Sample} → xs ≡ ys → n ≡ length xs % 2 ^ 16 → n ≡ length ys % 2 ^ 16
counted e h = rw e at h

-- Of any byte string: when `decode` returns a fingerprint for it, `encode` of that fingerprint
-- writes the same byte string, and the fingerprint's fields lie in the ranges of their Rust types.
pub encode-decode :
    (encoded : List ℕ) (f : Fingerprint)
    → All IsByte encoded
    → decode encoded ≡ ok f
    → (encode f ≡ ok encoded) × FingerprintFits f
unfolding encode encode_header
encode-decode encoded f bytes h =
    let (samples, len, magic, codec, res, rs, made) = decode_ok encoded bytes f h in
    let n : ℕ = header_count encoded in
    let (valid, ed, ei, es) = new-ok _ _ samples f made in
    let (size, there, fits) = read_samples_ok encoded bytes n 24 samples rs in
    let word : (i w : ℕ)
        → i + w ≤ length encoded
        → from_le_bytes (slice encoded i (i + w)) < 256 ^ w =
      λ i w h. (slice_word encoded bytes i w h).1 in
    let small : n < 256 ^ 2 = word 6 2 (omega arith) in
    let count : n ≡ length f.samples % 2 ^ 16 = counted es (omega arith) in
    let rest : drop 24 encoded ≡ encode_samples f.samples =
      there
      ∙ rw (drop_all (24 + 23 * n) encoded (omega arith), append-nil) (ap encode_samples es) in
    let whole : encode_header f ++ encode_samples f.samples ≡ encoded =
      ap (λ (r : List ℕ). encode_header f ++ r) (sym rest)
      ∙ sym (
          header_fields encoded bytes (length f.samples % 2 ^ 16) f.duration_ms f.interval_ms
            (omega arith) magic codec count ed ei res) in
    (
      rw valid.grid (rw valid.scores (ap ok whole)),
      record {
        duration_fits = rw ed at (word 8 8 (omega arith));
        interval_fits = rw ei at (word 16 4 (omega arith));
        samples_fit = rw es at fits;
      },
    )
