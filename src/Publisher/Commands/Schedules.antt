-- ===== src/Publisher/Commands/Schedules.antt =====
-- `schedule_post`, `schedule_post_exact` and `publish_now`.
use sooqa.Prelude.{ℕ, not, leb, List, Option, none, some, map_err}
use sooqa.Prelude.Int.{ℤ}
use sooqa.Publisher.Intent.{normalize_request_key}
use sooqa.Publisher.Posts.{
  PostState, PostRow, is_queue_mutable, post_state, validation, post_cannot_be_scheduled,
  exact_schedule_in_past,
}
use sooqa.Publisher.Slots.{ChannelRow}
use sooqa.Publisher.Store.{
  Environment, Moment, Tx, ◌>>=◌, ◌>>◌, pure, lift, or_fail, refuse_if, update_posts,
  post_channel_id, lock_channel, lock_post, ensure_channel_enabled, ensure_media_ready,
  ensure_repeat_decision_resolved,
}
use sooqa.Publisher.Hashes.{
  PostSchedule, PostExactSchedule, exact_key, publish_now_key, schedule_request_hash,
  publish_now_request_hash, exact_schedule_request_hash,
}
use sooqa.Publisher.Commands.{
  exactly_waits, check_expected_revision, or_replay, next_revision, waiting_update, queued_job,
  next_free_slot,
}

module _ {Value Zone : Type 0} (env : Environment Value Zone) (moment : Moment) where
  abbrev pub scheduled : List ℕ → List ℕ → ℕ → Option ℕ → ℕ → PostRow Value → PostRow Value
  scheduled request_key request_hash scheduled_at slot revision row = record row {
    schedule_request_key = some request_key;
    schedule_request_hash = some request_hash;
    state = "queued";
    scheduled_at = scheduled_at;
    cadence_slot_at = slot;
    revision = revision;
    error_class = none;
    error_message = none;
    updated_at = moment.now;
  }

  unfoldable pub schedule_new :
      PostSchedule → ChannelRow → PostRow Value → PostState → Tx Value (PostRow Value)
  schedule_new schedule channel current current_state = do
    refuse_if (not (is_queue_mutable current_state))
        (post_cannot_be_scheduled schedule.post_id current_state)
    lift (check_expected_revision current schedule.expected_revision)
    ensure_repeat_decision_resolved current
    ensure_channel_enabled channel
    ensure_media_ready current.media_id
    slot ← next_free_slot env moment channel current.id schedule.requested_at
    revision ← lift (next_revision current.revision)
    row ← waiting_update current.id current_state (
        scheduled schedule.request_key (schedule_request_hash env schedule) slot (some slot)
          revision)
    queued_job env moment current_state row.id slot row.revision
    pure row

  unfoldable pub schedule_row : PostSchedule → Tx Value (PostRow Value)
  schedule_row schedule = do
    channel_id ← post_channel_id schedule.post_id
    channel ← lock_channel channel_id
    current ← lock_post schedule.post_id
    current_state ← lift (post_state current)
    or_replay current.schedule_request_key current.schedule_request_hash schedule.request_key
        (schedule_request_hash env schedule) current
        (schedule_new schedule channel current current_state)

  abbrev pub scheduled_exactly : List ℕ → List ℕ → ℕ → ℕ → PostRow Value → PostRow Value
  scheduled_exactly request_key request_hash requested_at revision row = record row {
    schedule_request_key = some request_key;
    schedule_request_hash = some request_hash;
    requested_action = "queue";
    requested_publish_at = some requested_at;
    repeat_evidence = none;
    state = "queued";
    scheduled_at = requested_at;
    cadence_slot_at = none;
    revision = revision;
    error_class = none;
    error_message = none;
    updated_at = moment.now;
  }

  unfoldable pub apply_exact_schedule :
      PostRow Value → PostState → ℕ → List ℕ → List ℕ → ℕ → Tx Value (PostRow Value)
  apply_exact_schedule current state requested_at request_key request_hash revision = do
    updated ←
        update_posts (exactly_waits current)
          (scheduled_exactly request_key request_hash requested_at revision)
    or_fail updated (post_cannot_be_scheduled current.id state)

  unfoldable pub exact_new :
      PostExactSchedule → ChannelRow → PostRow Value → Tx Value (PostRow Value)
  exact_new schedule channel current = do
    refuse_if (leb schedule.requested_at moment.local) exact_schedule_in_past
    state ← lift (post_state current)
    refuse_if (not (is_queue_mutable state)) (post_cannot_be_scheduled current.id state)
    lift (check_expected_revision current schedule.expected_revision)
    ensure_repeat_decision_resolved current
    ensure_channel_enabled channel
    ensure_media_ready current.media_id
    revision ← lift (next_revision current.revision)
    row ←
        apply_exact_schedule current state schedule.requested_at (exact_key schedule.request_key)
          (exact_schedule_request_hash env schedule.requested_at) revision
    queued_job env moment state row.id schedule.requested_at row.revision
    pure row

  unfoldable pub exact_row : PostExactSchedule → Tx Value (PostRow Value)
  exact_row schedule = do
    channel_id ← post_channel_id schedule.post_id
    channel ← lock_channel channel_id
    current ← lock_post schedule.post_id
    or_replay current.schedule_request_key current.schedule_request_hash
        (exact_key schedule.request_key) (exact_schedule_request_hash env schedule.requested_at)
        current (exact_new schedule channel current)

  unfoldable pub publish_now_new :
      ℕ → List ℕ → ℤ → ChannelRow → PostRow Value → PostState → Tx Value (PostRow Value)
  publish_now_new id request_key expected_revision channel current state = do
    refuse_if (not (is_queue_mutable state)) (post_cannot_be_scheduled id state)
    lift (check_expected_revision current expected_revision)
    ensure_repeat_decision_resolved current
    ensure_channel_enabled channel
    ensure_media_ready current.media_id
    revision ← lift (next_revision current.revision)
    row ← waiting_update id state (
        scheduled (publish_now_key request_key) (publish_now_request_hash env request_key)
          moment.local none revision)
    queued_job env moment state id moment.local row.revision
    pure row

  unfoldable pub publish_now_row : ℕ → List ℕ → ℤ → Tx Value (PostRow Value)
  publish_now_row id value expected_revision = do
    request_key ← lift (map_err validation (normalize_request_key value))
    channel_id ← post_channel_id id
    channel ← lock_channel channel_id
    current ← lock_post id
    state ← lift (post_state current)
    or_replay current.schedule_request_key current.schedule_request_hash
        (publish_now_key request_key) (publish_now_request_hash env request_key) current
        (publish_now_new id request_key expected_revision channel current state)
