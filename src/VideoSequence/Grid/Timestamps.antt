-- ===== src/VideoSequence/Grid/Timestamps.antt =====
-- The selected timestamps are the grid that `validate_grid` asks for.
use sooqa.Prelude.{
  ℕ, zero, suc, ◌+◌, ◌-◌, ◌*◌, ◌<◌, ◌≤◌, ◌^◌, [], ◌∷◌, false, some, ◌≡◌, ◌↔◌, arith, refl, ap, ok,
}
use sooqa.Prelude.{ltb, ◌==◌, div_ceil, div_ceil_bounds, length, get_elem?}
use sooqa.VideoSequence.Defs.{grid_interval, max_samples, validate_grid, checked_add}
use sooqa.VideoSequence.Grid.{
  video_sequence_interval_ms, timestamps_loop, select_video_sequence_timestamps,
}
use mathlib.Core.Logic.{◌⊎◌, inl, inr}
use native.Mathlib.Decide.{dec_lt}
use sooqa.Prelude.{lt→ltb, ◌∙◌}
use native.Mathlib.Nat.{div-lt_iff_lt-mul, div-eq_of_lt-le}

div_ceil_unique : (d i n : ℕ) → 0 < i → d ≤ n * i → n * i < d + i → div_ceil d i ≡ n
div_ceil_unique d i n h lo hi = div-eq_of_lt-le i (omega arith) (omega arith)

step_done : (room d i t : ℕ) → d ≤ t → timestamps_loop (suc room) d i t ≡ []
unfolding timestamps_loop
step_done room d i t h = let e : ltb t d ≡ false = ground arith in rw (e, timestamps_loop)

step_next :
    (room d i t : ℕ)
    → t < d
    → t + i < 2 ^ 64
    → timestamps_loop (suc room) d i t ≡ t ∷ timestamps_loop room d i (t + i)
unfolding timestamps_loop
step_next room d i t h fits =
    rw (lt→ltb t d h, timestamps_loop) (rw (lt→ltb (t + i) (2 ^ 64) fits, checked_add))

step_last : (room d i t : ℕ) → t < d → 2 ^ 64 ≤ t + i → timestamps_loop (suc room) d i t ≡ t ∷ []
unfolding timestamps_loop
step_last room d i t h over =
    let e : ltb (t + i) (2 ^ 64) ≡ false = ground arith in
    rw (lt→ltb t d h, timestamps_loop) (rw (e, checked_add))

-- One round that pushes: it goes on, or no later multiple lies below the duration.
step_cases :
    (n room d i t : ℕ)
    → d < 2 ^ 64
    → t + suc n * i < d + i
    → (timestamps_loop (suc room) d i t ≡ t ∷ timestamps_loop room d i (t + i))
      ⊎ ((timestamps_loop (suc room) d i t ≡ t ∷ []) × (n ≡ 0))
step_cases n room d i t hd hi = elim (dec_lt (t + i) (2 ^ 64)) [
  | yes fits ↦ inl (step_next room d i t below fits)
  | no over ↦ inr (step_last room d i t below (omega arith), only_one n over hi)
]
  where
    below : t < d
    below = grind arith

    only_one : (n : ℕ) → ¬ (t + i < 2 ^ 64) → t + suc n * i < d + i → n ≡ 0
    only_one zero over hi = refl
    only_one (suc m) over hi = absurd (grind arith)

-- The loop from `t` on pushes the `n` multiples of the interval that lie below the duration.
length-timestamps_loop :
    (n room d i t : ℕ)
    → n ≤ room
    → d < 2 ^ 64
    → d ≤ t + n * i
    → t + n * i < d + i
    → length (timestamps_loop room d i t) ≡ n
length-timestamps_loop zero zero d i t hr hd lo hi = unfold timestamps_loop in refl
length-timestamps_loop zero (suc room) d i t hr hd lo hi = rw (step_done room d i t (omega arith))
length-timestamps_loop (suc n) zero d i t hr hd lo hi = absurd (omega arith)
length-timestamps_loop (suc n) (suc room) d i t hr hd lo hi = elim (step_cases n room d i t hd hi) [
  | inl e ↦ rw e (
      ap suc
        (length-timestamps_loop n room d i (t + i) (omega arith) hd (omega arith) (omega arith)))
  | inr (e, z) ↦ rw e (omega arith)
]

get_elem?-timestamps_loop :
    (k n room d i t : ℕ)
    → k < n
    → n ≤ room
    → d < 2 ^ 64
    → t + n * i < d + i
    → get_elem? (timestamps_loop room d i t) k ≡ some (t + k * i)
get_elem?-timestamps_loop k zero room d i t hk hr hd hi = absurd (omega arith)
get_elem?-timestamps_loop k (suc n) zero d i t hk hr hd hi = absurd (omega arith)
get_elem?-timestamps_loop zero (suc n) (suc room) d i t hk hr hd hi =
    elim (step_cases n room d i t hd hi) [
      | inl e ↦ rw e (ap some (omega arith))
      | inr (e, z) ↦ rw e (ap some (omega arith))
    ]
get_elem?-timestamps_loop (suc k) (suc n) (suc room) d i t hk hr hd hi =
    elim (step_cases n room d i t hd hi) [
      | inl e ↦ rw e (
          get_elem?-timestamps_loop k n room d i (t + i) (omega arith) (omega arith) hd
            (omega arith)
          ∙ ap some (omega arith))
      | inr (e, z) ↦ absurd (omega arith)
    ]

-- The interval keeps the number of samples within the limit.
grid_size : (d : ℕ) → div_ceil d (grid_interval d) ≤ max_samples
grid_size d = omega (
  arith,
  (div-lt_iff_lt-mul {k = grid_interval d} {x = d + grid_interval d - 1} {y = 2049} (omega arith)).1
      (omega (arith, div_ceil_bounds d max_samples (omega arith))),
)

select_eq :
    (d : ℕ)
    → 0 < d
    → select_video_sequence_timestamps d ≡ timestamps_loop max_samples d (grid_interval d) 0
unfolding select_video_sequence_timestamps
select_eq d h = let e : (d == 0) ≡ false = ground arith in rw e

length-select :
    (d : ℕ)
    → 0 < d
    → d < 2 ^ 64
    → length (select_video_sequence_timestamps d) ≡ div_ceil d (grid_interval d)
length-select d h hd = rw (select_eq d h) (
    length-timestamps_loop (div_ceil d (grid_interval d)) max_samples d (grid_interval d) 0
      (grid_size d) hd (omega (arith, div_ceil_bounds d (grid_interval d) (omega arith)))
      (omega (arith, div_ceil_bounds d (grid_interval d) (omega arith))))

-- The selected timestamps of a video whose duration is a `u64` and not zero are the multiples of
-- its grid interval below its duration: there are ⌈duration / interval⌉ of them, at most 2048, the
-- k-th is k intervals and lies below the duration, and the next multiple does not.
pub timestamps_grid :
    (d : ℕ)
    → 0 < d
    → d < 2 ^ 64
    → (length (select_video_sequence_timestamps d) ≡ div_ceil d (grid_interval d))
      × (length (select_video_sequence_timestamps d) ≤ max_samples)
      × ((k : ℕ)
          → k < length (select_video_sequence_timestamps d)
          → (get_elem? (select_video_sequence_timestamps d) k ≡ some (k * grid_interval d))
            × (k * grid_interval d < d))
      × (d ≤ length (select_video_sequence_timestamps d) * grid_interval d)
timestamps_grid d h hd =
    let i : ℕ = grid_interval d in
    let bounds : (d ≤ div_ceil d i * i) × (div_ceil d i * i < d + i) =
      div_ceil_bounds d i (omega arith) in
    rw (length-select d h hd) (
      refl,
      grid_size d,
      λ k hk. (
        rw (select_eq d h) (
            get_elem?-timestamps_loop k (div_ceil d i) max_samples d i 0 hk (grid_size d) hd
              (omega arith)
            ∙ ap some (omega arith)),
        below k i hk bounds.1,
      ),
      bounds.0,
    )
  where
    below : (k i : ℕ) → k < div_ceil d i → div_ceil d i * i < d + i → k * i < d
    below k i hk hi = grind arith

-- The last timestamp of the grid lies below the duration.
last-lt : (d i n : ℕ) → 0 < d → 0 < i → n ≡ div_ceil d i → (0 < n) × (i * (n - 1) < d)
last-lt d i zero hd hi e = absurd (grind (arith, div_ceil_bounds d i hi))
last-lt d i (suc n) hd hi e =
    let p : suc n * i < d + i = rw e (div_ceil_bounds d i hi).1 in
    let q : suc n - 1 ≡ n = omega arith in (omega arith, rw q (omega arith))

-- For a duration that is a `u64`, an interval that is a `u32` and any count, the grid check passes
-- exactly when the duration is not zero, the interval is the one that `video_sequence_interval_ms`
-- computes, and the count is the number of timestamps that are selected.
pub validate_grid_iff :
    (d i n : ℕ)
    → d < 2 ^ 64
    → i < 2 ^ 32
    → (validate_grid d i n ≡ ok tt) ↔ (
        (0 < d)
        × (video_sequence_interval_ms d ≡ some i)
        × (n ≡ length (select_video_sequence_timestamps d)))
unfolding validate_grid video_sequence_interval_ms
validate_grid_iff d i n hd hi = (
  λ h. ground (arith, length-select d),
  λ h. ground (arith, length-select d, grid_size d, last-lt d i n),
)
