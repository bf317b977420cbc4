-- ===== src/VideoSequence/Grid.antt =====
-- The timestamps at which a video is sampled.
use sooqa.Prelude.{
  ℕ, zero, suc, ◌+◌, ◌-◌, ◌*◌, ◌/◌, ◌<◌, ◌≤◌, ◌^◌, List, [], ◌∷◌, Bool, true, false, Option, none,
  some, ◌≡◌, arith,
}
pub mod Timestamps
use sooqa.Prelude.{ltb, ◌==◌, if◌then◌else◌, div_ceil, length, get_elem?, refl}
use sooqa.VideoSequence.Defs.{grid_interval, max_samples, checked_add}

-- `video_sequence_interval_ms`; the `u32::try_from` is the test.
unfoldable pub video_sequence_interval_ms : ℕ → Option ℕ
video_sequence_interval_ms duration_ms =
    if duration_ms == 0
    then none
    else if ltb (grid_interval duration_ms) (2 ^ 32)
    then some (grid_interval duration_ms)
    else none

-- The `while` loop; `room` is `VIDEO_SEQUENCE_MAX_SAMPLES - timestamps.len()`, which its second
-- test holds above zero.
unfoldable pub timestamps_loop : ℕ → ℕ → ℕ → ℕ → List ℕ
timestamps_loop zero duration_ms interval_ms timestamp = []
timestamps_loop (suc room) duration_ms interval_ms timestamp = elim (ltb timestamp duration_ms) [
  | false ↦ []
  | true ↦ timestamp ∷ elim (checked_add timestamp interval_ms) [
    | none ↦ []
    | some next ↦ timestamps_loop room duration_ms interval_ms next
  ]
]

unfoldable pub select_video_sequence_timestamps : ℕ → List ℕ
select_video_sequence_timestamps duration_ms =
    if duration_ms == 0
    then []
    else timestamps_loop max_samples duration_ms (grid_interval duration_ms) 0
