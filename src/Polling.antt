-- ===== src/Polling.antt =====
-- `PollBackoff` of crates/telegram/src/polling.rs. A `Duration` is a number of nanoseconds.
pub mod Doubling
mod Tests
use sooqa.Prelude.{
  ℕ, ◌-◌, ◌*◌, ◌^◌, min, max, leb, if◌then◌else◌, List, [], ◌∷◌, Option, none, some,
}

-- `Duration::MAX`: a `u64` of seconds, and less than one more.
abbrev pub max_duration : ℕ
max_duration = 2 ^ 64 * 1000000000 - 1

pub record PollBackoff : Type 0 where
  pub next_delay : ℕ
  pub initial_delay : ℕ
  pub max_delay : ℕ

abbrev pub new : ℕ → ℕ → PollBackoff
new initial_delay max_delay = record {
  next_delay = initial_delay;
  initial_delay = initial_delay;
  max_delay = max_delay;
}

unfoldable pub reset : PollBackoff → PollBackoff
reset backoff = record backoff { next_delay = backoff.initial_delay }

-- `unwrap_or_default`
abbrev pub suggestion : Option ℕ → ℕ
suggestion none = 0
suggestion (some delay) = delay

-- The delay, and the back-off after it; `checked_mul` fails past the longest duration.
unfoldable pub next : PollBackoff → Option ℕ → ℕ × PollBackoff
next backoff suggested =
    let doubled =
      if leb (backoff.next_delay * 2) max_duration
      then backoff.next_delay * 2
      else backoff.max_delay in
    (
      max backoff.next_delay (suggestion suggested),
      record backoff { next_delay = min doubled backoff.max_delay },
    )

-- The back-off after failures with these suggestions, the last one first.
unfoldable pub failures : List (Option ℕ) → PollBackoff → PollBackoff
failures [] backoff = backoff
failures (suggested ∷ earlier) backoff = (next (failures earlier backoff) suggested).1
