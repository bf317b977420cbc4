-- ===== src/Publisher/Slots.antt =====
-- The cadence slots of a channel: `next_allowed_slot` and the search of `next_free_slot` of
-- crates/persistence/src/publisher.rs. `Chrono` stands for chrono and chrono_tz. An instant is a number of
-- nanoseconds, a date a number of days, and a local time the nanoseconds of its date and time of day.
pub mod Search
pub mod Grid
pub mod Free
mod Tests
use sooqa.Prelude.{
  ℕ, zero, suc, ◌+◌, ◌-◌, ◌*◌, Bool, true, false, ◌&&◌, ◌||◌, not, ltb, leb, ◌==◌, if◌then◌else◌,
  List, [], ◌∷◌, Option, none, some, max, Result, ok, err, ok_or, fail_if, ◌>>=◌, ◌>>◌, div_ceil,
}
use sooqa.Prelude.Int.{ℤ, pos, pos_part, leb_ℤ}
use sooqa.Publisher.Posts.{
  PublisherRepositoryError, invalid_time_zone, invalid_timestamp, cadence_search_exhausted,
}

pub record ChannelRow : Type 0 where
  pub id : ℕ
  pub telegram_chat_id : ℤ
  pub name : List ℕ
  pub is_enabled : Bool
  pub time_zone : List ℕ
  pub window_start : ℕ
  pub window_end : ℕ
  pub interval_minutes : ℤ
  pub default_parse_mode : Option (List ℕ)
  pub default_disable_notification : Bool
  pub created_at : ℕ
  pub updated_at : ℕ

pub record Chrono (Zone : Type 0) : Type 0 where
  -- `parse::<Tz>`
  pub parse_zone : List ℕ → Option Zone
  -- whether `DateTime::from_timestamp` has the instant, and whether `timestamp_nanos_opt` and
  -- `from_unix_timestamp_nanos` give it back
  pub is_timestamp : ℕ → Bool
  pub has_nanos : ℕ → Bool
  -- `with_timezone(…).date_naive()`
  pub local_date : Zone → ℕ → ℕ
  -- `from_local_datetime`: no instant, one, or the earliest and the latest
  pub from_local_datetime : Zone → ℕ → List ℕ

abbrev pub nanos_per_day : ℕ
nanos_per_day = 86400 * 1000000000

abbrev pub nanos_per_minute : ℕ
nanos_per_minute = 60 * 1000000000

abbrev pub nanos_per_second : ℕ
nanos_per_second = 1000000000

-- `NaiveDateTime::new`
abbrev pub local_time : ℕ → ℕ → ℕ
local_time date time = date * nanos_per_day + time

-- `earliest_utc.is_none_or(|earliest| result < earliest)`
abbrev pub is_earlier : ℕ → Option ℕ → Bool
is_earlier result none = true
is_earlier result (some earliest) = ltb result earliest

-- The loop over the instants of one local time: the earliest one that is not before the candidate.
unfoldable pub earlier_of : ℕ → List ℕ → Option ℕ → Option ℕ
earlier_of candidate [] earliest = earliest
earlier_of candidate (result ∷ resolved) earliest =
    earlier_of candidate resolved
      (if leb candidate result && is_earlier result earliest then some result else earliest)

-- `occupied.contains(&candidate)`
abbrev pub contains : List ℕ → ℕ → Bool
contains [] slot = false
contains (o ∷ occupied) slot = o == slot || contains occupied slot

module _ {Zone : Type 0} (chrono : Chrono Zone) where
  unfoldable pub to_chrono : ℕ → Result PublisherRepositoryError ℕ
  to_chrono value = if chrono.is_timestamp value then ok value else err invalid_timestamp

  unfoldable pub from_chrono : ℕ → Result PublisherRepositoryError ℕ
  from_chrono value = if chrono.has_nanos value then ok value else err invalid_timestamp

  -- `while target < end_target`, with the rounds that are left.
  unfoldable pub scan_day : ℕ → Zone → ℕ → ℕ → ℕ → ℕ → Option ℕ → Option ℕ
  scan_day zero zone candidate step target end_target earliest = earliest
  scan_day (suc rounds) zone candidate step target end_target earliest =
      let rest =
        scan_day rounds zone candidate step (target + step) end_target
          (earlier_of candidate (chrono.from_local_datetime zone target) earliest) in
      if ltb target end_target then rest else earliest

  -- The rounds that the loop over a day makes.
  abbrev pub day_rounds : ℕ → ℕ → ℕ → ℕ
  day_rounds start end_time step = div_ceil (end_time - start) step

  -- The loop over the days.
  unfoldable pub scan_days : ℕ → Zone → ℕ → ℕ → ℕ → ℕ → ℕ → Result PublisherRepositoryError ℕ
  scan_days zero zone candidate start end_time step date = err cadence_search_exhausted
  scan_days (suc days) zone candidate start end_time step date =
      elim (scan_day (day_rounds start end_time step) zone candidate step (local_time date start)
        (local_time date end_time) none) [
          | some result ↦ from_chrono result
          | none ↦ scan_days days zone candidate start end_time step (date + 1)
        ]

  unfoldable pub next_allowed_slot : ℕ → ChannelRow → Result PublisherRepositoryError ℕ
  next_allowed_slot requested channel = do
    timezone ← ok_or (chrono.parse_zone channel.time_zone) (invalid_time_zone channel.time_zone)
    candidate ← to_chrono requested
    fail_if (leb_ℤ channel.interval_minutes (pos 0)) cadence_search_exhausted
    scan_days 370 timezone candidate channel.window_start channel.window_end
        (pos_part channel.interval_minutes * nanos_per_minute)
        (chrono.local_date timezone candidate)

  -- `for _ in 0..10_000`
  unfoldable pub free_slot : ℕ → List ℕ → ChannelRow → ℕ → Result PublisherRepositoryError ℕ
  free_slot zero occupied channel candidate = err cadence_search_exhausted
  free_slot (suc rounds) occupied channel candidate =
      if contains occupied candidate
      then next_allowed_slot (candidate + nanos_per_second) channel
        >>= free_slot rounds occupied channel
      else ok candidate

  -- The search of `next_free_slot`, on the slots that other posts of the channel hold.
  unfoldable pub search_free_slot : ℕ → List ℕ → ChannelRow → ℕ → Result PublisherRepositoryError ℕ
  search_free_slot local occupied channel requested_at =
      next_allowed_slot (max requested_at local) channel >>= free_slot 10000 occupied channel
