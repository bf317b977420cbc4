-- ===== src/Publisher/Repository/Tests.antt =====
-- Runs of the repository's operations, and their theorems at concrete tables.
use sooqa.Prelude.{
  ok, ℕ, ◌/◌, ◌≤◌, ◌≡◌, ◌≢◌, refl, arith, true, false, inl, inr, [], ◌∷◌, none, some, err,
  if◌then◌else◌,
}
use sooqa.Prelude.Int.{pos, negsuc}
use sooqa.Prelude.Tables.{update_where, select_where}
use sooqa.Prelude.Tables.Rewrites.{Mem, here, there}
use sooqa.Jobs.Commands.{Codec, Serde}
use sooqa.Publisher.Channel.{text_eq, utc}
use sooqa.Publisher.Posts.{
  PostRow, post_state, post_state_try_from, is_queue_mutable, optimistic_conflict,
}
use sooqa.Publisher.Posts.Valid.{IsPost}
use sooqa.Publisher.Slots.{
  ChannelRow, Chrono, nanos_per_day, search_free_slot, free_slot, next_allowed_slot, to_chrono,
  from_chrono, scan_days, scan_day, earlier_of,
}
use sooqa.Publisher.Slots.Free.{IsSlot}
use sooqa.Publisher.Commands.FreeSlot.{Rival, next_free_slot-IsFree}
use sooqa.Publisher.Store.{
  Environment, Moment, Store, update_posts, post_channel_id, lock_channel, lock_post, lift, or_fail,
  refuse_if,
}
use sooqa.Publisher.Commands.{next_free_slot, check_expected_revision, next_revision}
use sooqa.Publisher.Commands.Edits.{cancel_row}
use sooqa.Publisher.Commands.Sending.{PublishLease}
use sooqa.Publisher.Repository.{command_row, command, cancel_post, complete_publish, end_send}
use sooqa.Publisher.Repository.Steps.{IsValid}
use sooqa.Publisher.Repository.History.{
  Reaches, start, next, commanded, Reaches-IsValid, closed_forever, revision-names,
}
use sooqa.Publisher.Repository.Conflicts.{command-stale, end_send-stale}

abbrev chrono : Chrono (Unit {0})
chrono = record {
  parse_zone = λ name. if text_eq name utc then some tt else none;
  is_timestamp = λ t. true;
  has_nanos = λ t. true;
  local_date = λ zone t. t / nanos_per_day;
  from_local_datetime = λ zone t. t ∷ [];
}

abbrev env : Environment (ℕ × ℕ) (Unit {0})
env = record {
  chrono = chrono;
  sha256 = λ bytes. bytes;
  as_bytes = λ text. text;
  uuid_text = λ id. "7";
  publish_payload = λ id revision. (id, revision);
  payload_post_id = λ payload. some "7";
  evidence_from_value = λ value. err "evidence";
}

-- The runs settle no job.
abbrev codec : {Payload : Type 0} → Codec (ℕ × ℕ) Payload
codec = record { to_value = λ payload. (0, 0); from_value = λ value. err "payload" }

abbrev serde : Serde (ℕ × ℕ) (Unit {0})
serde = record {
  inspect_codec = codec;
  download_codec = codec;
  ingest_codec = codec;
  materialize_codec = codec;
  media_codec = codec;
  publish_codec = codec;
  cleanup_codec = codec;
}

abbrev moment : Moment
moment = record { now = 1000; clock = 1001; local = 1002; fresh = 99 }

abbrev channel : ChannelRow
channel = record {
  id = 3;
  telegram_chat_id = negsuc 100122;
  name = utc;
  is_enabled = true;
  time_zone = utc;
  window_start = 28800000000000;
  window_end = 79200000000000;
  interval_minutes = pos 30;
  default_parse_mode = none;
  default_disable_notification = false;
  created_at = 0;
  updated_at = 0;
}

abbrev waiting : PostRow (ℕ × ℕ)
waiting = record {
  id = 7;
  request_key = none;
  request_hash = none;
  origin_ingest_id = none;
  requested_action = "queue";
  requested_publish_at = none;
  repeat_evidence = none;
  decision_request_key = none;
  decision_request_hash = none;
  schedule_request_key = none;
  schedule_request_hash = none;
  media_id = 5;
  channel_id = 3;
  state = "draft";
  caption = none;
  parse_mode = none;
  disable_notification = false;
  scheduled_at = 900;
  cadence_slot_at = none;
  send_generation = 0;
  send_token = none;
  send_started_at = none;
  telegram_message_id = none;
  published_at = none;
  error_class = none;
  error_message = none;
  created_at = 0;
  updated_at = 0;
  revision = 4;
}

-- A post that was published in its second send.
abbrev done_post : PostRow (ℕ × ℕ)
done_post = record waiting {
  id = 8;
  state = "published";
  send_generation = 2;
  telegram_message_id = some (pos 12);
  published_at = some 800;
}

abbrev cancelled_row : PostRow (ℕ × ℕ)
cancelled_row = record waiting { state = "cancelled"; revision = 5; updated_at = 1000 }

abbrev tables : Store (ℕ × ℕ)
tables = record {
  posts = waiting ∷ done_post ∷ [];
  jobs = [];
  channels = channel ∷ [];
  media = record { id = 5; storage_state = "ready" } ∷ [];
}

abbrev cancelled_tables : Store (ℕ × ℕ)
cancelled_tables = record tables { posts = cancelled_row ∷ done_post ∷ [] }

cancelling : (command env moment (cancel_post 7 (pos 4)) tables).1 ≡ cancelled_tables
unfolding command command_row cancel_row post_channel_id lock_channel lock_post lift or_fail
    refuse_if check_expected_revision next_revision post_state post_state_try_from is_queue_mutable
    update_posts update_where select_where
cancelling = refl

stale_cancel :
    (command env moment (cancel_post 7 (pos 3)) tables) ≡ (err (optimistic_conflict 7), tables)
unfolding command command_row cancel_row post_channel_id lock_channel lock_post lift or_fail
    refuse_if check_expected_revision next_revision post_state post_state_try_from is_queue_mutable
    update_posts update_where select_where
stale_cancel = refl

waiting-IsPost : IsPost waiting
waiting-IsPost = record {
  fence = inr (refl, (refl, refl));
  message = inl refl;
  slot = inl refl;
  reviewed = inl refl;
}

done_post-IsPost : IsPost done_post
done_post-IsPost = record {
  fence = inr (refl, (refl, refl));
  message = inr ((pos 12, (refl, refl)), (800, refl));
  slot = inl refl;
  reviewed = inl refl;
}

tables-IsValid : IsValid tables.posts
tables-IsValid = ((waiting-IsPost, (done_post-IsPost, tt)), (((ground arith, tt)), (tt, tt)))

cancelling-Reaches : Reaches env serde tables (command env moment (cancel_post 7 (pos 4)) tables).1
cancelling-Reaches = next start (commanded moment (cancel_post 7 (pos 4)))

Reaches-IsValid_example : IsValid (command env moment (cancel_post 7 (pos 4)) tables).1.posts
Reaches-IsValid_example =
    Reaches-IsValid env serde tables (command env moment (cancel_post 7 (pos 4)) tables).1
      cancelling-Reaches tables-IsValid

closed_forever_example : Mem done_post (command env moment (cancel_post 7 (pos 4)) tables).1.posts
closed_forever_example =
    closed_forever env serde tables (command env moment (cancel_post 7 (pos 4)) tables).1 done_post
      cancelling-Reaches tables-IsValid (there here) λ opens. absurd (cc opens.0)

cancelled-Mem : Mem cancelled_row (command env moment (cancel_post 7 (pos 4)) tables).1.posts
unfolding command command_row cancel_row post_channel_id lock_channel lock_post lift or_fail
    refuse_if check_expected_revision next_revision post_state post_state_try_from is_queue_mutable
    update_posts update_where select_where
cancelled-Mem = here

revision-names_example :
    (waiting.revision ≤ cancelled_row.revision)
    × (waiting.send_generation ≤ cancelled_row.send_generation)
    × (cancelled_row.revision ≡ waiting.revision → cancelled_row ≡ waiting)
revision-names_example =
    revision-names env serde tables (command env moment (cancel_post 7 (pos 4)) tables).1 waiting
      cancelled_row cancelling-Reaches tables-IsValid here cancelled-Mem refl

command-stale_example : (command env moment (cancel_post 7 (pos 3)) tables).1.posts ≡ tables.posts
command-stale_example =
    command-stale env moment (cancel_post 7 (pos 3)) tables waiting tables-IsValid.1 here refl refl

abbrev old_lease : PublishLease
old_lease = record {
  generation = 1;
  token = 55;
  attempt = record { job_id = 1; attempt_number = 1; lease_owner = "w"; lease_token = 9 };
}

end_send-stale_example :
    (end_send env moment 8 old_lease (complete_publish (pos 13)) tables).posts ≡ tables.posts
end_send-stale_example =
    end_send-stale env moment 8 old_lease (complete_publish (pos 13)) tables done_post
      tables-IsValid.1 (there here) refl (ground arith)

-- Another post of the channel holds the first slot of the day.
abbrev rival : PostRow (ℕ × ℕ)
rival = record waiting { id = 9; state = "queued"; cadence_slot_at = some 28800000000000 }

abbrev rival_tables : Store (ℕ × ℕ)
rival_tables = record tables { posts = rival ∷ waiting ∷ [] }

second_slot :
    next_free_slot env moment channel 7 900 rival_tables ≡ ok (30600000000000, rival_tables)
unfolding next_free_slot search_free_slot free_slot next_allowed_slot to_chrono from_chrono
    scan_days scan_day earlier_of lift
second_slot = refl

next_free_slot-IsFree_example :
    ((b : PostRow (ℕ × ℕ))
      → Mem b rival_tables.posts
      → Rival 3 7 b
      → b.cadence_slot_at ≢ some 30600000000000)
    × (900 ≤ 30600000000000)
    × (1002 ≤ 30600000000000)
    × IsSlot chrono channel 30600000000000
    × (rival_tables ≡ rival_tables)
next_free_slot-IsFree_example =
    next_free_slot-IsFree env moment channel 7 900 30600000000000 rival_tables rival_tables
      second_slot
