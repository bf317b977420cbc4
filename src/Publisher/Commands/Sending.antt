-- ===== src/Publisher/Commands/Sending.antt =====
-- The send of a post: `claim_publish`, `complete_publish`, `fail_publish`, `retry_publish` and
-- `reconcile_interrupted_publish`.
use sooqa.Prelude.{
  ℕ, ◌+◌, String, Bool, true, false, ◌&&◌, ◌||◌, not, leb, ◌==◌, if◌then◌else◌, Option, none, some,
}
use sooqa.Prelude.Strings.{str_eq, opt_nat_eq}
use sooqa.Jobs.Rows.{JobRow, JobLease}
use sooqa.Prelude.Int.{ℤ, pos, leb_ℤ, int_eq}
use sooqa.Publisher.Intent.{is_some}
use sooqa.Publisher.Posts.{
  PostState, PostRow, queued, failed, as_str, sending, published, unknown, post_not_claimable,
  stale_publication_job, publish_lease_lost, publish_conflict, invalid_telegram_message_id,
  invalid_publish_failure_state, post_state,
}
use sooqa.Publisher.Slots.{ChannelRow}
use sooqa.Publisher.Store.{
  Environment, Moment, Tx, ◌>>=◌, ◌>>◌, pure, lift, or_fail, refuse_if, update_posts,
  post_channel_id, lock_channel, lock_post, ensure_channel_enabled, ensure_media_ready,
}
use sooqa.Publisher.Queue.{lock_current_job_attempt, update_jobs, with_payload}
use sooqa.Publisher.Commands.{update_one, next_revision}
use sooqa.Publisher.Commands.Edits.{unwrap_or}

-- A lease of a publication: the send's generation and token, and the attempt of its job.
pub record PublishLease : Type 0 where
  pub generation : ℕ
  pub token : ℕ
  pub attempt : JobLease

abbrev pub same_state : PostState → PostState → Bool
same_state a b = str_eq (as_str a) (as_str b)

-- `telegram_message_id != Some(…)`
abbrev pub is_message : Option ℤ → ℤ → Bool
is_message none m = false
is_message (some n) m = int_eq n m

module _ {Value Zone : Type 0} (env : Environment Value Zone) (moment : Moment) where
  -- `id = $1 AND state = 'sending' AND send_generation = $m AND send_token = $n`
  abbrev pub is_sent_by : ℕ → PublishLease → PostRow Value → Bool
  is_sent_by id lease row =
      row.id == id
      && str_eq row.state "sending"
      && row.send_generation == lease.generation
      && opt_nat_eq row.send_token lease.token

  -- `id = $1 AND state = 'queued' AND revision = $4`
  abbrev pub claims : ℕ → ℤ → PostRow Value → Bool
  claims id expected_revision row =
      row.id == id && str_eq row.state "queued" && int_eq (pos row.revision) expected_revision

  abbrev pub claimed_post : ℕ → PostRow Value → PostRow Value
  claimed_post revision row = record row {
    state = "sending";
    send_generation = row.send_generation + 1;
    send_token = some moment.fresh;
    send_started_at = some moment.now;
    revision = revision;
    updated_at = moment.now;
  }

  unfoldable pub claim_row : ℕ → ℤ → JobLease → Tx Value (PostRow Value × ℤ)
  claim_row id expected_revision attempt = do
    channel_id ← post_channel_id id
    channel ← lock_channel channel_id
    current ← lock_post id
    _ ← lock_current_job_attempt env moment id attempt
    state ← lift (post_state current)
    refuse_if (not (same_state state queued)) (post_not_claimable id state)
    refuse_if (not (int_eq (pos current.revision) expected_revision)) (stale_publication_job id)
    ensure_channel_enabled channel
    ensure_media_ready current.media_id
    revision ← lift (next_revision current.revision)
    row ← update_one (claims id expected_revision) (claimed_post revision)
    pure (row, channel.telegram_chat_id)

  abbrev pub published_post : ℤ → PostRow Value → PostRow Value
  published_post telegram_message_id row = record row {
    state = "published";
    telegram_message_id = some telegram_message_id;
    published_at = some (unwrap_or row.published_at moment.now);
    send_token = none;
    send_started_at = none;
    error_class = none;
    error_message = none;
    revision = row.revision + 1;
    updated_at = moment.now;
  }

  -- The post holds the lease's generation and token while it is sent.
  abbrev pub holds_send : PostState → PublishLease → PostRow Value → Bool
  holds_send state lease current =
      same_state state sending
      && current.send_generation == lease.generation
      && opt_nat_eq current.send_token lease.token

  -- The post is not published yet.
  unfoldable pub complete_sent :
      ℕ → PublishLease → ℤ → ChannelRow → PostRow Value → PostState → Tx Value (PostRow Value × ℤ)
  complete_sent id lease telegram_message_id channel current state = do
    refuse_if (not (holds_send state lease current)) (publish_lease_lost id)
    row ← update_one (is_sent_by id lease) (published_post telegram_message_id)
    pure (row, channel.telegram_chat_id)

  -- It is: the same message of the same send is a replay.
  unfoldable pub complete_published :
      ℕ → PublishLease → ℤ → ChannelRow → PostRow Value → Tx Value (PostRow Value × ℤ)
  complete_published id lease telegram_message_id channel current = do
    refuse_if
        (not (current.send_generation == lease.generation)
          || not (is_message current.telegram_message_id telegram_message_id))
        (publish_conflict id)
    pure (current, channel.telegram_chat_id)

  unfoldable pub complete_row : ℕ → PublishLease → ℤ → Tx Value (PostRow Value × ℤ)
  complete_row id lease telegram_message_id = do
    refuse_if (leb_ℤ telegram_message_id (pos 0)) (invalid_telegram_message_id telegram_message_id)
    channel_id ← post_channel_id id
    channel ← lock_channel channel_id
    current ← lock_post id
    _ ← lock_current_job_attempt env moment id lease.attempt
    state ← lift (post_state current)
    if same_state state published
        then complete_published id lease telegram_message_id channel current
        else complete_sent id lease telegram_message_id channel current state

  abbrev pub ended_send : String → String → String → PostRow Value → PostRow Value
  ended_send state class message row = record row {
    state = state;
    send_token = none;
    send_started_at = none;
    error_class = some class;
    error_message = some message;
    revision = row.revision + 1;
    updated_at = moment.now;
  }

  unfoldable pub fail_row :
      ℕ → PublishLease → PostState → String → String → Tx Value (PostRow Value)
  fail_row id lease state class message = do
    refuse_if (not (same_state state failed || same_state state unknown))
        (invalid_publish_failure_state state)
    channel_id ← post_channel_id id
    _ ← lock_channel channel_id
    _ ← lock_post id
    _ ← lock_current_job_attempt env moment id lease.attempt
    updated ← update_posts (is_sent_by id lease) (ended_send (as_str state) class message)
    or_fail updated (publish_lease_lost id)

  abbrev pub retried_send : PostState → String → String → ℕ → PostRow Value → PostRow Value
  retried_send state class message revision row = record row {
    state = as_str state;
    send_token = none;
    send_started_at = none;
    error_class = some class;
    error_message = some message;
    revision = revision;
    updated_at = moment.now;
  }

  -- The job of a send that is tried again gets the post's new revision.
  unfoldable pub retried_job : ℕ → JobRow Value → Bool → ℕ → Tx Value (Unit {0})
  retried_job id job true revision = pure tt
  retried_job id job false revision =
      update_jobs id (λ r. r.id == job.id && str_eq r.state "running")
        (with_payload env moment id revision)

  unfoldable pub retry_row : ℕ → PublishLease → String → String → Tx Value (PostRow Value × Bool)
  retry_row id lease class message = do
    channel_id ← post_channel_id id
    _ ← lock_channel channel_id
    current ← lock_post id
    job ← lock_current_job_attempt env moment id lease.attempt
    state ← lift (post_state current)
    refuse_if (not (holds_send state lease current)) (publish_lease_lost id)
    revision ← lift (next_revision current.revision)
    let terminal = leb job.max_attempts job.attempt_count
    row ←
        update_one (is_sent_by id lease)
          (retried_send (if terminal then failed else queued) class message revision)
    retried_job id job terminal row.revision
    pure (row, terminal)

  abbrev pub interrupted_send : PostRow Value → PostRow Value
  interrupted_send row =
      ended_send "unknown" "publication_interrupted"
        "a previous publication attempt lost its job lease" row

  abbrev pub is_interrupted : ℕ → PostRow Value → Bool
  is_interrupted id row = row.id == id && str_eq row.state "sending"

  unfoldable pub reconcile_row : ℕ → JobLease → Tx Value Bool
  reconcile_row id attempt = do
    channel_id ← post_channel_id id
    _ ← lock_channel channel_id
    _ ← lock_post id
    _ ← lock_current_job_attempt env moment id attempt
    updated ← update_posts (is_interrupted id) interrupted_send
    pure (is_some updated)
