-- ===== src/Publisher/Commands.antt =====
-- What the commands on posts share: the checks of a revision, the statements on a waiting post, the
-- replays, and the free slot of crates/persistence/src/publisher.rs.
pub mod FreeSlot
pub mod Edits
pub mod Schedules
pub mod Decisions
pub mod Sending
pub mod Revisions
use sooqa.Prelude.{
  ℕ, ◌+◌, String, Bool, true, false, ◌&&◌, ◌||◌, not, leb, ◌==◌, if◌then◌else◌, List, [], ◌∷◌,
  Option, none, some, Result, ok, err, map_err, ok_or, fail_if,
}
use sooqa.Prelude.Strings.{str_eq}
use sooqa.Prelude.Int.{ℤ, pos, ltb_ℤ, int_eq}
use sooqa.Publisher.Intent.{
  PublicationDecision, post_now_anyway, queue_anyway, keep_exact_time, cancel, is_some,
  invalid_expected_revision, validate_expected_revision, validate_optional, invalid_parse_mode,
  normalize_request_key, decision_allowed,
}
use sooqa.Publisher.Channel.{is_unknown_mode}
use sooqa.Publisher.Posts.{
  PostState, PostRow, Post, PublisherRepositoryError, draft, queued, failed, is_queue_mutable,
  post_state, action_try_from, validation, invalid_publication_action, post_not_editable,
  post_cannot_be_scheduled, post_decision_not_allowed, invalid_publication_decision,
  exact_time_missing, request_key_conflict, optimistic_conflict, empty_update, revision_overflow,
  exact_schedule_in_past, database,
}
use sooqa.Publisher.Slots.{ChannelRow, search_free_slot}
use sooqa.Publisher.Store.{
  Environment, Moment, Store, Tx, ◌>>=◌, ◌>>◌, pure, lift, gets, or_fail, transact, refuse_if,
  row_read, max_i64, post_is, update_posts, post_channel_id, lock_channel, lock_post,
  ensure_channel_enabled, ensure_media_ready, ensure_repeat_decision_resolved, opt_text_eq,
}
use sooqa.Publisher.Queue.{
  update_publish_job, insert_publish_job, update_failed_publish_job, cancel_publish_job,
}
use sooqa.Publisher.Hashes.{
  PostUpdate, PostSchedule, PostExactSchedule, exact_key, publish_now_key, schedule_request_hash,
  publish_now_request_hash, exact_schedule_request_hash, decision_request_hash,
}

module _ {Value : Type 0} where
  unfoldable pub check_expected_revision :
      PostRow Value → ℤ → Result PublisherRepositoryError (Unit {0})
  check_expected_revision current expected_revision =
      if ltb_ℤ expected_revision (pos 0)
      then err (validation invalid_expected_revision)
      else if not (int_eq expected_revision (pos current.revision))
      then err (optimistic_conflict current.id)
      else ok tt

  -- `state IN ('draft', 'queued', 'failed')`
  abbrev pub is_waiting : PostRow Value → Bool
  is_waiting row =
      str_eq row.state "draft" || str_eq row.state "queued" || str_eq row.state "failed"

  abbrev pub waits_as : ℕ → PostRow Value → Bool
  waits_as id row = row.id == id && is_waiting row

  abbrev pub exactly_waits : PostRow Value → PostRow Value → Bool
  exactly_waits current row =
      row.id == current.id && (is_waiting row && row.revision == current.revision)

  -- `fetch_one` fails where no row is updated.
  abbrev pub update_one :
      (PostRow Value → Bool) → (PostRow Value → PostRow Value) → Tx Value (PostRow Value)
  update_one p f = update_posts p f >>= λ updated. or_fail updated database

  -- A command whose key the post has was applied before: the post as it is, if the command was the same.
  unfoldable pub or_replay :
      Option (List ℕ)
      → Option (List ℕ)
      → List ℕ
      → List ℕ
      → PostRow Value
      → Tx Value (PostRow Value)
      → Tx Value (PostRow Value)
  or_replay stored_key stored_hash request_key request_hash current rest =
      if opt_text_eq stored_key request_key
      then (refuse_if (not (opt_text_eq stored_hash request_hash))
            (request_key_conflict request_key)
          >> pure current)
      else rest

  -- The slots that other posts of the channel hold.
  abbrev pub cadence_slots : ℕ → ℕ → List (PostRow Value) → List ℕ
  cadence_slots channel_id post_id [] = []
  cadence_slots channel_id post_id (row ∷ rows) =
      let rest = cadence_slots channel_id post_id rows in
      if row.channel_id == channel_id
        && not (row.id == post_id)
        && (str_eq row.state "queued" || str_eq row.state "sending")
      then elim row.cadence_slot_at [ none ↦ rest | some slot ↦ slot ∷ rest ]
      else rest

unfoldable pub next_revision : ℕ → Result PublisherRepositoryError ℕ
next_revision current = if leb max_i64 current then err revision_overflow else ok (current + 1)

module _ {Value : Type 0} where
  abbrev pub waiting_update :
      ℕ → PostState → (PostRow Value → PostRow Value) → Tx Value (PostRow Value)
  waiting_update id state f = do
    updated ← update_posts (waits_as id) f
    or_fail updated (post_cannot_be_scheduled id state)

module _ {Value Zone : Type 0} (env : Environment Value Zone) (moment : Moment) where
  -- The job of a post that is put into the queue.
  abbrev pub queued_job : PostState → ℕ → ℕ → ℕ → Tx Value (Unit {0})
  queued_job draft id run_at revision = insert_publish_job env moment id run_at revision
  queued_job _ id run_at revision = update_publish_job env moment id run_at revision

  unfoldable pub next_free_slot : ChannelRow → ℕ → ℕ → Tx Value ℕ
  next_free_slot channel post_id requested_at = do
    occupied ← gets λ db. cadence_slots channel.id post_id db.posts
    lift (search_free_slot env.chrono moment.local occupied channel requested_at)
