-- ===== src/Alignment/Score.antt =====
-- The distance of two samples and the score of pairing them.
use sooqa.Prelude.{ℕ, zero, suc, ◌+◌, ◌-◌, ◌*◌, ◌/◌, ◌%◌, ◌^◌, min, ltb, if◌then◌else◌}
use sooqa.Prelude.Int.{ℤ, ◌-ℤ◌, sub_ℕ, unsigned_abs}
use sooqa.VideoSequence.{Sample}
use Prim.Native.Nat.{bit_xor}

abbrev pub max_distance_bps : ℕ
max_distance_bps = 10000

abbrev pub info_threshold_bps : ℕ
info_threshold_bps = 1000

-- `u64::count_ones`, a bit a round.
unfoldable pub count_ones : ℕ → ℕ → ℕ
count_ones zero x = 0
count_ones (suc n) x = x % 2 + count_ones n (x / 2)

-- `saturating_mul` and `saturating_add` on `u32`
abbrev pub saturating_mul : ℕ → ℕ → ℕ
saturating_mul a b = min (a * b) (2 ^ 32 - 1)

abbrev pub saturating_add : ℕ → ℕ → ℕ
saturating_add a b = min (a + b) (2 ^ 32 - 1)

abbrev pub abs_diff : ℕ → ℕ → ℕ
abs_diff a b = (a - b) + (b - a)

abbrev pub hash_distance : ℕ → ℕ → ℕ
hash_distance a b = count_ones 64 (bit_xor a b) * 10000 / 64

-- The signed difference of two `i8` fits an `i16`, so it does not wrap.
abbrev pub chroma_distance : ℤ → ℤ → ℕ
chroma_distance a b = unsigned_abs (a -ℤ b) * 10000 / 255

unfoldable pub pair_distance_bps : Sample → Sample → ℕ
pair_distance_bps left right =
    let phash = hash_distance left.phash right.phash in
    let dhash = hash_distance left.dhash right.dhash in
    let luma = abs_diff left.mean_luma right.mean_luma * 10000 / 255 in
    let chroma_u = chroma_distance left.mean_chroma_u right.mean_chroma_u in
    let chroma_v = chroma_distance left.mean_chroma_v right.mean_chroma_v in
    min
      (saturating_add (saturating_add (saturating_mul phash 4) (saturating_mul dhash 4))
          ((luma + chroma_u + chroma_v) / 3 * 2)
        / 10)
      10000

abbrev pub weight_bps : ℕ → ℕ
weight_bps information =
    if ltb information info_threshold_bps
    then 0
    else 4600 + saturating_mul (information - info_threshold_bps) 5400 / 9000

unfoldable pub pair_score : Sample → Sample → ℤ
pair_score left right =
    let distance = pair_distance_bps left right in
    let information = min left.information_bps right.information_bps in
    sub_ℕ (saturating_mul (max_distance_bps - distance) (weight_bps information) / 10000) 4500
