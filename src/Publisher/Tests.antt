-- ===== src/Publisher/Tests.antt =====
-- Runs of the publisher's checks, and their theorems at concrete inputs.
use sooqa.Prelude.{ℕ, ◌≤◌, ◌≡◌, ◌↔◌, refl, false, List, [], ◌∷◌, length, none, some, ok, err}
use sooqa.Prelude.Int.{pos, negsuc}
use sooqa.Prelude.Text.{trim, trim_start, is_whitespace, is_control}
use sooqa.Publisher.Intent.{
  PublicationIntent, queue, post_now, normalize_request_key, try_new, validate_caption, is_empty,
  max_request_key_length, post_now_time_not_allowed, empty_request_key,
}
use sooqa.Publisher.Intent.Normal.{normalize_request_key-twice}
use sooqa.Publisher.Intent.Accepted.{MayName, Kept, try_new_iff}
use sooqa.Publisher.Posts
use sooqa.Publisher.Posts.{as_str, post_state_try_from}
use sooqa.Publisher.Posts.Names.{post_state_try_from_iff}
use sooqa.Publisher.Channel.{NewChannel, try_new_channel, validate_channel, utc, text_eq}
use sooqa.Publisher.Channel.Accepted.{try_new_channel-validate_channel}

abbrev spaced : List ℕ
spaced = b' ' ∷ b'k' ∷ b'9' ∷ 10 ∷ []

abbrev bare : List ℕ
bare = b'k' ∷ b'9' ∷ []

abbrev later : PublicationIntent
later = record { action = queue; requested_publish_at = some 500; caption = some bare }

blank_key : normalize_request_key (b' ' ∷ 9 ∷ []) ≡ err empty_request_key
unfolding normalize_request_key trim trim_start is_whitespace
blank_key = refl

timed_now : try_new post_now (some 500) none ≡ err post_now_time_not_allowed
unfolding try_new
timed_now = refl

spaced_key : normalize_request_key spaced ≡ ok bare
unfolding normalize_request_key trim trim_start is_whitespace
spaced_key = refl

normalize_request_key-twice_example :
    (bare ≡ trim spaced)
    × (is_empty bare ≡ false)
    × (length bare ≤ max_request_key_length)
    × (normalize_request_key bare ≡ ok bare)
normalize_request_key-twice_example = normalize_request_key-twice spaced bare spaced_key

later_accepted : try_new queue (some 500) (some spaced) ≡ ok later
unfolding try_new trim trim_start is_whitespace validate_caption is_control
later_accepted = refl

try_new_iff_example :
    try_new queue (some 500) (some spaced) ≡ ok later
    ↔ (later.action ≡ queue)
      × (later.requested_publish_at ≡ some 500)
      × MayName queue (some 500)
      × Kept (some spaced) later.caption
try_new_iff_example = try_new_iff queue (some 500) (some spaced) later

abbrev channel : NewChannel
channel = record {
  name = bare;
  telegram_chat_id = negsuc 100122;
  time_zone = utc;
  window_start = 28800000000000;
  window_end = 79200000000000;
  interval_minutes = pos 30;
  default_parse_mode = none;
  default_disable_notification = false;
}

channel_made : try_new_channel spaced (negsuc 100122) ≡ ok channel
unfolding try_new_channel trim trim_start is_whitespace
channel_made = refl

try_new_channel-validate_channel_example : validate_channel (text_eq utc) channel ≡ ok tt
try_new_channel-validate_channel_example =
    try_new_channel-validate_channel (text_eq utc) spaced (negsuc 100122) channel refl channel_made

post_state_try_from_iff_example :
    (post_state_try_from "queued" ≡ ok Posts.queued) ↔ ("queued" ≡ as_str Posts.queued)
post_state_try_from_iff_example = post_state_try_from_iff "queued" Posts.queued
