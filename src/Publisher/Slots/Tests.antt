-- ===== src/Publisher/Slots/Tests.antt =====
-- Runs of the searches for a slot, and their theorems at a channel in a zone without offset.
use sooqa.Prelude.{◌/◌, ◌≡◌, refl, true, false, [], ◌∷◌, none, some, ok, if◌then◌else◌}
use sooqa.Prelude.Int.{pos, negsuc}
use sooqa.Publisher.Channel.{text_eq, utc}
use sooqa.Publisher.Slots.{
  Chrono, ChannelRow, nanos_per_day, next_allowed_slot, search_free_slot, free_slot, scan_days,
  scan_day, earlier_of, to_chrono, from_chrono,
}
use sooqa.Publisher.Slots.Search.{IsFirst}
use sooqa.Publisher.Slots.Free.{slot_step, next_allowed_slot-IsFirst}

abbrev chrono : Chrono (Unit {0})
chrono = record {
  parse_zone = λ name. if text_eq name utc then some tt else none;
  is_timestamp = λ t. true;
  has_nanos = λ t. true;
  local_date = λ zone t. t / nanos_per_day;
  from_local_datetime = λ zone t. t ∷ [];
}

-- From 8:00 to 9:00, every thirty minutes.
abbrev channel : ChannelRow
channel = record {
  id = 3;
  telegram_chat_id = negsuc 100122;
  name = utc;
  is_enabled = true;
  time_zone = utc;
  window_start = 28800000000000;
  window_end = 32400000000000;
  interval_minutes = pos 30;
  default_parse_mode = none;
  default_disable_notification = false;
  created_at = 0;
  updated_at = 0;
}

-- After the last slot of the day comes the first of the next.
next_day : next_allowed_slot chrono 32000000000000 channel ≡ ok 115200000000000
unfolding next_allowed_slot to_chrono from_chrono scan_days scan_day earlier_of
next_day = refl

second_slot : search_free_slot chrono 1000 (28800000000000 ∷ []) channel 900 ≡ ok 30600000000000
unfolding search_free_slot free_slot next_allowed_slot to_chrono from_chrono scan_days scan_day
    earlier_of
second_slot = refl

next_allowed_slot-IsFirst_example :
    IsFirst chrono tt 28800000000000 32400000000000
      (slot_step chrono channel)
      32000000000000
      370
      0
      (next_allowed_slot chrono 32000000000000 channel)
next_allowed_slot-IsFirst_example =
    next_allowed_slot-IsFirst chrono 32000000000000 channel tt refl refl refl
