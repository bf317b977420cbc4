-- ===== src/Publisher/Commands/Decisions.antt =====
-- `decide_post`: the decision on a post whose media was published before.
use sooqa.Prelude.{
  ℕ, String, Bool, true, false, ◌&&◌, not, leb, ◌==◌, List, Option, none, some, map_err,
}
use sooqa.Prelude.Strings.{str_eq}
use sooqa.Prelude.Int.{ℤ, pos, int_eq}
use sooqa.Publisher.Intent.{
  PublicationDecision, post_now_anyway, queue_anyway, keep_exact_time, cancel, is_some,
  normalize_request_key, decision_allowed,
}
use sooqa.Publisher.Posts.{
  PostState, PostRow, draft, post_state, action_try_from, validation, invalid_publication_action,
  post_decision_not_allowed, invalid_publication_decision, exact_time_missing,
  exact_schedule_in_past,
}
use sooqa.Publisher.Slots.{ChannelRow}
use sooqa.Publisher.Store.{
  Environment, Moment, Tx, ◌>>=◌, ◌>>◌, pure, lift, or_fail, refuse_if, post_channel_id,
  lock_channel, lock_post, ensure_channel_enabled, ensure_media_ready,
}
use sooqa.Publisher.Queue.{insert_publish_job}
use sooqa.Publisher.Hashes.{decision_request_hash}
use sooqa.Publisher.Commands.{
  check_expected_revision, update_one, or_replay, next_revision, next_free_slot,
}

abbrev pub is_draft : PostState → Bool
is_draft draft = true
is_draft _ = false

module _ {Value Zone : Type 0} (env : Environment Value Zone) (moment : Moment) where
  abbrev pub decided : List ℕ → List ℕ → String → ℕ → Option ℕ → ℕ → PostRow Value → PostRow Value
  decided request_key request_hash state scheduled_at slot revision row = record row {
    state = state;
    scheduled_at = scheduled_at;
    cadence_slot_at = slot;
    repeat_evidence = none;
    decision_request_key = some request_key;
    decision_request_hash = some request_hash;
    revision = revision;
    error_class = none;
    error_message = none;
    updated_at = moment.now;
  }

  abbrev pub decided_cancelled : List ℕ → List ℕ → ℕ → PostRow Value → PostRow Value
  decided_cancelled request_key request_hash revision row = record row {
    state = "cancelled";
    repeat_evidence = none;
    decision_request_key = some request_key;
    decision_request_hash = some request_hash;
    cadence_slot_at = none;
    revision = revision;
    updated_at = moment.now;
  }

  -- `id = $1 AND state = 'draft' AND revision = $n`
  abbrev pub is_undecided : ℕ → ℤ → PostRow Value → Bool
  is_undecided id expected_revision row =
      row.id == id && str_eq row.state "draft" && int_eq (pos row.revision) expected_revision

  -- What the three decisions that publish share.
  abbrev pub queue_decided : ℕ → ℤ → List ℕ → List ℕ → ℕ → ℕ → Option ℕ → Tx Value (PostRow Value)
  queue_decided id expected_revision request_key request_hash revision run_at slot = do
    row ←
        update_one (is_undecided id expected_revision)
          (decided request_key request_hash "queued" run_at slot revision)
    insert_publish_job env moment id run_at row.revision
    pure row

  unfoldable pub apply_decision :
      ℕ
      → PublicationDecision
      → ℤ
      → List ℕ
      → List ℕ
      → ChannelRow
      → PostRow Value
      → ℕ
      → Tx Value (PostRow Value)
  apply_decision id cancel expected_revision request_key request_hash channel current revision =
      update_one (is_undecided id expected_revision)
        (decided_cancelled request_key request_hash revision)
  apply_decision id post_now_anyway expected_revision request_key request_hash channel current
        revision =
      do
        ensure_channel_enabled channel
        ensure_media_ready current.media_id
        queue_decided id expected_revision request_key request_hash revision moment.local none
  apply_decision id queue_anyway expected_revision request_key request_hash channel current
        revision =
      do
        ensure_channel_enabled channel
        ensure_media_ready current.media_id
        slot ← next_free_slot env moment channel id moment.local
        queue_decided id expected_revision request_key request_hash revision slot (some slot)
  apply_decision id keep_exact_time expected_revision request_key request_hash channel current
        revision =
      do
        ensure_channel_enabled channel
        ensure_media_ready current.media_id
        requested_at ← or_fail current.requested_publish_at (exact_time_missing id)
        refuse_if (leb requested_at moment.local) exact_schedule_in_past
        queue_decided id expected_revision request_key request_hash revision requested_at none

  unfoldable pub decide_new :
      ℕ → PublicationDecision → List ℕ → ℤ → ChannelRow → PostRow Value → Tx Value (PostRow Value)
  decide_new id decision request_key expected_revision channel current = do
    state ← lift (post_state current)
    refuse_if (not (is_draft state)) (post_decision_not_allowed id state)
    refuse_if (not (is_some current.repeat_evidence)) (post_decision_not_allowed id state)
    lift (check_expected_revision current expected_revision)
    action ← lift (
        map_err (λ _. invalid_publication_action current.requested_action)
          (action_try_from current.requested_action))
    refuse_if (not (decision_allowed action current.requested_publish_at decision))
        (invalid_publication_decision id decision)
    revision ← lift (next_revision current.revision)
    apply_decision id decision expected_revision request_key
        (decision_request_hash env decision expected_revision) channel current revision

  unfoldable pub decide_row : ℕ → PublicationDecision → List ℕ → ℤ → Tx Value (PostRow Value)
  decide_row id decision value expected_revision = do
    request_key ← lift (map_err validation (normalize_request_key value))
    channel_id ← post_channel_id id
    channel ← lock_channel channel_id
    current ← lock_post id
    or_replay current.decision_request_key current.decision_request_hash request_key
        (decision_request_hash env decision expected_revision) current
        (decide_new id decision request_key expected_revision channel current)
