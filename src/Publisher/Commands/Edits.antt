-- ===== src/Publisher/Commands/Edits.antt =====
-- `update_post` and `cancel_post`.
use sooqa.Prelude.{
  ℕ, ◌+◌, Bool, false, ◌&&◌, not, ◌==◌, Option, none, some, Result, ok, err, fail_if,
}
use sooqa.Prelude.Int.{ℤ}
use sooqa.Publisher.Intent.{
  is_some, validate_expected_revision, validate_optional, invalid_parse_mode,
}
use sooqa.Publisher.Channel.{is_unknown_mode}
use sooqa.Publisher.Posts.{
  PostState, PostRow, PublisherRepositoryError, draft, queued, failed, is_queue_mutable, post_state,
  validation, post_not_editable, post_cannot_be_scheduled, optimistic_conflict, empty_update,
}
use sooqa.Publisher.Store.{
  Environment, Moment, Tx, ◌>>=◌, ◌>>◌, pure, lift, refuse_if, post_is, post_channel_id,
  lock_channel, lock_post,
}
use sooqa.Publisher.Queue.{update_publish_job, update_failed_publish_job, cancel_publish_job}
use sooqa.Publisher.Hashes.{PostUpdate}
use sooqa.Publisher.Commands.{check_expected_revision, update_one, next_revision, waiting_update}

-- `unwrap_or`
abbrev pub unwrap_or : {A : Type 0} → Option A → A → A
unwrap_or none d = d
unwrap_or (some a) d = a

abbrev pub flat : {A : Type 0} → Option (Option A) → Option A
flat none = none
flat (some o) = o

-- `expected.is_some_and(|expected| expected != updated_at)`
abbrev pub differs : Option ℕ → ℕ → Bool
differs none t = false
differs (some expected) t = not (expected == t)

unfoldable pub validate_post_update : PostUpdate → Result PublisherRepositoryError (Unit {0})
validate_post_update update = elim (validate_expected_revision update.expected_revision) [
  | err e ↦ err (validation e)
  | ok _ ↦ elim (validate_optional (flat update.caption)) [
    | err e ↦ err (validation e)
    | ok _ ↦ fail_if (is_unknown_mode (flat update.parse_mode)) (validation invalid_parse_mode)
  ]
]

module _ {Value Zone : Type 0} (env : Environment Value Zone) (moment : Moment) where
  abbrev pub edited : PostUpdate → PostRow Value → PostRow Value → PostRow Value
  edited update current row = record row {
    caption = unwrap_or update.caption current.caption;
    parse_mode = unwrap_or update.parse_mode current.parse_mode;
    disable_notification = unwrap_or update.disable_notification current.disable_notification;
    revision = row.revision + 1;
    updated_at = moment.now;
  }

  -- The publication job of a post that was edited; `is_queue_mutable` leaves no other state.
  abbrev pub edited_job : PostState → PostRow Value → Tx Value (Unit {0})
  edited_job queued row = update_publish_job env moment row.id row.scheduled_at row.revision
  edited_job failed row = update_failed_publish_job env moment row.id row.scheduled_at row.revision
  edited_job _ row = pure tt

  unfoldable pub update_row : ℕ → PostUpdate → Tx Value (PostRow Value)
  update_row id update = do
    channel_id ← post_channel_id id
    _ ← lock_channel channel_id
    current ← lock_post id
    state ← lift (post_state current)
    refuse_if (not (is_queue_mutable state)) (post_not_editable id state)
    lift (check_expected_revision current update.expected_revision)
    refuse_if (differs update.expected_updated_at current.updated_at) (optimistic_conflict id)
    row ← update_one (post_is id) (edited update current)
    edited_job state row
    pure row

  abbrev pub changes_nothing : PostUpdate → Bool
  changes_nothing update =
      not (is_some update.caption)
      && not (is_some update.parse_mode)
      && not (is_some update.disable_notification)

  -- Both checks come before the transaction begins.
  unfoldable pub update_checked : ℕ → PostUpdate → Tx Value (PostRow Value)
  update_checked id update = do
    refuse_if (changes_nothing update) empty_update
    lift (validate_post_update update)
    update_row id update

  abbrev pub cancelled_post : ℕ → PostRow Value → PostRow Value
  cancelled_post revision row = record row {
    state = "cancelled";
    cadence_slot_at = none;
    revision = revision;
    updated_at = moment.now;
  }

  abbrev pub job_cancelled : PostState → ℕ → Tx Value (Unit {0})
  job_cancelled draft id = pure tt
  job_cancelled _ id = cancel_publish_job env moment id

  unfoldable pub cancel_row : ℕ → ℤ → Tx Value (PostRow Value)
  cancel_row id expected_revision = do
    channel_id ← post_channel_id id
    _ ← lock_channel channel_id
    current ← lock_post id
    state ← lift (post_state current)
    refuse_if (not (is_queue_mutable state)) (post_cannot_be_scheduled id state)
    lift (check_expected_revision current expected_revision)
    job_cancelled state id
    revision ← lift (next_revision current.revision)
    waiting_update id state (cancelled_post revision)
