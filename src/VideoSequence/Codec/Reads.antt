-- ===== src/VideoSequence/Codec/Reads.antt =====
-- What a successful read says of the bytes that it read.
use sooqa.Prelude.{
  ℕ, zero, suc, ◌+◌, ◌-◌, ◌*◌, ◌^◌, ◌<◌, ◌≤◌, ◌≡◌, refl, ap, sym, ◌∙◌, List, [], ◌∷◌, ◌++◌, some,
  arith, length, take, drop, get_elem?, get_range?, length-drop, length-take, take-append-drop,
  drop-add, drop-get_elem?, All-get_elem?, All, All-take, All-drop,
}
use sooqa.Prelude.{ok, ok_or, >>=-eq-ok, >>=-elim, ok_or-eq-ok}
use sooqa.Prelude.Bytes.{
  IsByte, to_le_bytes, from_le_bytes, to_le_bytes-from_le_bytes, from_le_bytes-lt, i8_to_u8,
  u8_to_i8, i8_to_u8-u8_to_i8, u8_to_i8-IsI8,
}
use sooqa.VideoSequence.Defs.{Sample, SampleFits, truncated, checked_add}
use sooqa.VideoSequence.Codec.{
  encode_sample, encode_samples, read_u8, read_word, read_sample, read_samples, slice,
}
use mathlib.Core.List.{append_assoc}
use mathlib.Core.Path.{subst}

abbrev sample_of : ℕ → ℕ → ℕ → ℕ → ℕ → ℕ → ℕ → Sample
sample_of p d l u v i t = record {
  phash = p;
  dhash = d;
  mean_luma = l;
  mean_chroma_u = u8_to_i8 u;
  mean_chroma_v = u8_to_i8 v;
  information_bps = i;
  transition_bps = t;
}

module _ (encoded : List ℕ) (bytes : All IsByte encoded) where
  -- The bytes from `i` to `j` are those of the word that they make.
  pub slice_word :
      (i w : ℕ)
      → i + w ≤ length encoded
      → (drop i encoded
          ≡ to_le_bytes w (from_le_bytes (slice encoded i (i + w))) ++ drop (i + w) encoded)
        × (from_le_bytes (slice encoded i (i + w)) < 256 ^ w)
  slice_word i w h =
      let size : i + w - i ≡ w = omega arith in
      let word : List ℕ = take w (drop i encoded) in
      let all : All IsByte word =
        All-take IsByte w (drop i encoded) (All-drop IsByte i encoded bytes) in
      let len : length word ≡ w =
        length-take w (drop i encoded) ∙ omega (arith, length-drop i encoded) in
      let back : to_le_bytes w (from_le_bytes word) ≡ word =
        rw len at (to_le_bytes-from_le_bytes word all) in
      let bound : from_le_bytes word < 256 ^ w = rw len at (from_le_bytes-lt word all) in
      rw size (rw (back, drop-add i w encoded) (sym (take-append-drop w (drop i encoded))), bound)

  read_word_ok :
      (w offset v next : ℕ)
      → read_word w encoded offset ≡ ok (v, next)
      → (next ≡ offset + w)
        × (drop offset encoded ≡ to_le_bytes w v ++ drop next encoded)
        × (v < 256 ^ w)
  unfolding read_word
  read_word_ok w offset v next h =
      let (end, he, h1) = >>=-eq-ok (ok_or (checked_add offset w) truncated) _ h in
      let (word, hw, h2) = >>=-eq-ok (ok_or (get_range? encoded offset end) truncated) _ h1 in
      let sum : end ≡ offset + w = ground arith in
      let e : next ≡ offset + w = cc (sum, h2) in
      let range : get_range? encoded offset (offset + w) ≡ some word =
        rw sum at (ok_or-eq-ok (get_range? encoded offset end) truncated hw) in
      let inside : offset + w ≤ length encoded = ground (arith, range) in
      let value : from_le_bytes (slice encoded offset (offset + w)) ≡ v = ground (arith, range) in
      (
        e,
        rw (e, ← value) (slice_word offset w inside).0,
        rw (← value) (slice_word offset w inside).1,
      )

  read_u8_ok :
      (offset b next : ℕ)
      → read_u8 encoded offset ≡ ok (b, next)
      → (next ≡ offset + 1) × (drop offset encoded ≡ b ∷ drop next encoded) × (b < 256)
  unfolding read_u8
  read_u8_ok offset b next h =
      let (x, hx, h1) = >>=-eq-ok (ok_or (get_elem? encoded offset) truncated) _ h in
      let found : get_elem? encoded offset ≡ some b =
        ok_or-eq-ok (get_elem? encoded offset) truncated hx ∙ cc h1 in
      let e : next ≡ offset + 1 = cc h1 in
      (
        e,
        rw e (drop-get_elem? encoded offset found),
        All-get_elem? IsByte encoded offset b bytes found,
      )

  -- What seven reads in a row give.
  read_parts :
      (offset : ℕ) (p d l u v i t : ℕ × ℕ)
      → read_word 8 encoded offset ≡ ok p
      → read_word 8 encoded p.1 ≡ ok d
      → read_u8 encoded d.1 ≡ ok l
      → read_u8 encoded l.1 ≡ ok u
      → read_u8 encoded u.1 ≡ ok v
      → read_word 2 encoded v.1 ≡ ok i
      → read_word 2 encoded i.1 ≡ ok t
      → (t.1 ≡ offset + 23)
        × (drop offset encoded
            ≡ encode_sample (sample_of p.0 d.0 l.0 u.0 v.0 i.0 t.0) ++ drop t.1 encoded)
        × SampleFits (sample_of p.0 d.0 l.0 u.0 v.0 i.0 t.0)
  unfolding encode_sample
  read_parts offset p d l u v i t r1 r2 r3 r4 r5 r6 r7 =
      let q1 = read_word_ok 8 offset p.0 p.1 r1 in
      let q2 = read_word_ok 8 p.1 d.0 d.1 r2 in
      let q3 = read_u8_ok d.1 l.0 l.1 r3 in
      let q4 = read_u8_ok l.1 u.0 u.1 r4 in
      let q5 = read_u8_ok u.1 v.0 v.1 r5 in
      let q6 = read_word_ok 2 v.1 i.0 i.1 r6 in
      let q7 = read_word_ok 2 i.1 t.0 t.1 r7 in
      let back : (b : ℕ) → IsByte b → i8_to_u8 (u8_to_i8 b) ≡ b = i8_to_u8-u8_to_i8 in
      let word : ℕ → ℕ → List ℕ → List ℕ = λ w x rest. to_le_bytes w x ++ rest in
      let c6 = q6.1 ∙ ap (word 2 i.0) q7.1 in
      let c5 = q5.1 ∙ ap (λ (r : List ℕ). v.0 ∷ r) c6 in
      let c4 = q4.1 ∙ ap (λ (r : List ℕ). u.0 ∷ r) c5 in
      let c3 = q3.1 ∙ ap (λ (r : List ℕ). l.0 ∷ r) c4 in
      let chain = q1.1 ∙ ap (word 8 p.0) (q2.1 ∙ ap (word 8 d.0) c3) in
      (
        omega (arith, q1.0, q2.0, q3.0, q4.0, q5.0, q6.0, q7.0),
        rw (back u.0 q4.2, back v.0 q5.2) chain,
        record {
          phash_fits = q1.2;
          dhash_fits = q2.2;
          luma_fits = q3.2;
          chroma_u_fits = u8_to_i8-IsI8 u.0 q4.2;
          chroma_v_fits = u8_to_i8-IsI8 v.0 q5.2;
          information_fits = q6.2;
          transition_fits = q7.2;
        },
      )

  read_sample_ok :
      (offset next : ℕ) (s : Sample)
      → read_sample encoded offset ≡ ok (s, next)
      → (next ≡ offset + 23)
        × (drop offset encoded ≡ encode_sample s ++ drop next encoded)
        × SampleFits s
  unfolding read_sample
  read_sample_ok offset next s h = >>=-elim (read_word 8 encoded offset) _ h λ p r1 h1.
      >>=-elim (read_word 8 encoded p.1) _ h1 λ d r2 h2.
        >>=-elim (read_u8 encoded d.1) _ h2 λ l r3 h3.
          >>=-elim (read_u8 encoded l.1) _ h3 λ u r4 h4.
            >>=-elim (read_u8 encoded u.1) _ h4 λ v r5 h5.
              >>=-elim (read_word 2 encoded v.1) _ h5 λ i r6 h6.
                >>=-elim (read_word 2 encoded i.1) _ h6 λ t r7 h7.
                  let e : (sample_of p.0 d.0 l.0 u.0 v.0 i.0 t.0, t.1) ≡ (s, next) = cc h7 in
                  subst
                    (λ (q : Sample × ℕ).
                      (q.1 ≡ offset + 23)
                      × (drop offset encoded ≡ encode_sample q.0 ++ drop q.1 encoded)
                      × SampleFits q.0)
                    e (read_parts offset p d l u v i t r1 r2 r3 r4 r5 r6 r7)

  pub read_samples_ok :
      (n offset : ℕ) (samples : List Sample)
      → read_samples n encoded offset ≡ ok samples
      → (length samples ≡ n)
        × (drop offset encoded ≡ encode_samples samples ++ drop (offset + 23 * n) encoded)
        × All SampleFits samples
  unfolding read_samples encode_samples
  read_samples_ok zero offset [] h =
      let e : offset + 23 * 0 ≡ offset = omega arith in (refl, rw e refl, tt)
  read_samples_ok zero offset (s ∷ rest) h = absurd (cc h)
  read_samples_ok (suc n) offset samples h = >>=-elim (read_sample encoded offset) _ h λ p r1 h1.
      >>=-elim (read_samples n encoded p.1) _ h1 λ rest r2 h2.
        let (next, here, fits) = read_sample_ok offset p.1 p.0 r1 in
        let (size, there, all) = read_samples_ok n p.1 rest r2 in
        let e : p.0 ∷ rest ≡ samples = cc h2 in
        let far : p.1 + 23 * n ≡ offset + 23 * suc n = omega (arith, next) in
        rw (← e) (
          omega (arith, size),
          here ∙ ap (λ (r : List ℕ). encode_sample p.0 ++ r) there ∙ rw (far, append_assoc) refl,
          (fits, all),
        )
