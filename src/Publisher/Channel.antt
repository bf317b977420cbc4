-- ===== src/Publisher/Channel.antt =====
-- The settings of a channel. `is_time_zone` stands for the parser of chrono_tz; a time of day is a
-- number of ticks.
pub mod Accepted
use sooqa.Prelude.{
  ℕ, Bool, true, false, ◌&&◌, ◌||◌, not, ltb, leb, ◌==◌, if◌then◌else◌, List, [], ◌∷◌, length,
  Option, none, some, Result, ok, err, fail_if, ◌>>=◌, ◌>>◌, ◌*◌,
}
use sooqa.Prelude.Int.{ℤ, pos, leb_ℤ}
use sooqa.Prelude.Text.{trim}
use sooqa.Publisher.Intent.{is_empty}

pub data ChannelValidationError : Type 0 where
  empty_name empty_time_zone invalid_time_zone invalid_window : ChannelValidationError
  invalid_interval invalid_channel_parse_mode : ChannelValidationError
  name_too_long : ℕ → ChannelValidationError
  invalid_telegram_chat_id : ℤ → ChannelValidationError

pub record NewChannel : Type 0 where
  pub name : List ℕ
  pub telegram_chat_id : ℤ
  pub time_zone : List ℕ
  pub window_start : ℕ
  pub window_end : ℕ
  pub interval_minutes : ℤ
  pub default_parse_mode : Option (List ℕ)
  pub default_disable_notification : Bool

abbrev pub max_channel_name_length : ℕ
max_channel_name_length = 128

abbrev pub hour : ℕ
hour = 3600 * 1000000000

-- "UTC"
abbrev pub utc : List ℕ
utc = b'U' ∷ b'T' ∷ b'C' ∷ []

abbrev pub text_eq : List ℕ → List ℕ → Bool
text_eq [] [] = true
text_eq [] (d ∷ t) = false
text_eq (c ∷ s) [] = false
text_eq (c ∷ s) (d ∷ t) = c == d && text_eq s t

abbrev pub html : List ℕ
html = b'H' ∷ b'T' ∷ b'M' ∷ b'L' ∷ []

abbrev pub markdown_v2 : List ℕ
markdown_v2 = b'M' ∷ b'a' ∷ b'r' ∷ b'k' ∷ b'd' ∷ b'o' ∷ b'w' ∷ b'n' ∷ b'V' ∷ b'2' ∷ []

abbrev pub is_unknown_mode : Option (List ℕ) → Bool
is_unknown_mode none = false
is_unknown_mode (some mode) = not (text_eq mode html || text_eq mode markdown_v2)

-- `NewChannel::try_new`
unfoldable pub try_new_channel : List ℕ → ℤ → Result ChannelValidationError NewChannel
try_new_channel name telegram_chat_id = do
  fail_if (is_empty (trim name)) empty_name
  fail_if (ltb max_channel_name_length (length (trim name))) (name_too_long max_channel_name_length)
  fail_if (leb_ℤ (pos 0) telegram_chat_id) (invalid_telegram_chat_id telegram_chat_id)
  ok (record {
    name = trim name;
    telegram_chat_id = telegram_chat_id;
    time_zone = utc;
    window_start = 8 * hour;
    window_end = 22 * hour;
    interval_minutes = pos 30;
    default_parse_mode = none;
    default_disable_notification = false;
  })

-- `NewChannel::validate`
unfoldable pub validate_channel :
    (List ℕ → Bool) → NewChannel → Result ChannelValidationError (Unit {0})
validate_channel is_time_zone c = do
  fail_if (is_empty (trim c.name)) empty_name
  fail_if (ltb max_channel_name_length (length c.name)) (name_too_long max_channel_name_length)
  fail_if (leb_ℤ (pos 0) c.telegram_chat_id) (invalid_telegram_chat_id c.telegram_chat_id)
  fail_if (is_empty (trim c.time_zone)) empty_time_zone
  fail_if (not (is_time_zone c.time_zone)) invalid_time_zone
  fail_if (leb c.window_end c.window_start) invalid_window
  fail_if (leb_ℤ c.interval_minutes (pos 0)) invalid_interval
  fail_if (is_unknown_mode c.default_parse_mode) invalid_channel_parse_mode
