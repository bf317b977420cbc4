-- ===== src/Publisher/Channel/Accepted.antt =====
-- A channel that `try_new` makes passes `validate`.
use sooqa.Prelude.{ℕ, ◌≡◌, arith, Bool, true, List, ok}
use sooqa.Prelude.Int.{ℤ}
use sooqa.Prelude.Text.{trim, trim_start, is_whitespace}
use sooqa.Prelude.Text.Trim.{trim-twice}
use sooqa.Publisher.Channel.{NewChannel, try_new_channel, validate_channel, utc}

-- If chrono_tz knows UTC, a channel that `try_new` makes passes `validate`.
pub try_new_channel-validate_channel :
    (is_time_zone : List ℕ → Bool) (name : List ℕ) (telegram_chat_id : ℤ) (c : NewChannel)
    → is_time_zone utc ≡ true
    → try_new_channel name telegram_chat_id ≡ ok c
    → validate_channel is_time_zone c ≡ ok tt
unfolding try_new_channel validate_channel trim trim_start is_whitespace
try_new_channel-validate_channel is_time_zone name id c zone h = ground (arith, trim-twice name)
