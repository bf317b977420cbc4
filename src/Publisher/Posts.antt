-- ===== src/Publisher/Posts.antt =====
-- Posts of crates/publisher, their rows in `posts`, and the errors of the repository in
-- crates/persistence/src/publisher.rs. A `Uuid` is a number, a time is a number of nanoseconds, and a count
-- that the table keeps from being negative is a number.
pub mod Names
pub mod Valid
use sooqa.Prelude.{
  ℕ, String, Bool, true, false, if◌then◌else◌, List, Option, none, some, Result, ok, err, map_err,
  ◌>>=◌,
}
use sooqa.Prelude.Strings.{str_eq}
use sooqa.Prelude.Int.{ℤ}
use sooqa.Publisher.Intent.{
  PublicationAction, PublicationDecision, PublisherValidationError, queue, post_now,
}

pub data PostState : Type 0 where
  draft queued sending published unknown failed cancelled : PostState

unfoldable pub as_str : PostState → String
as_str draft = "draft"
as_str queued = "queued"
as_str sending = "sending"
as_str published = "published"
as_str unknown = "unknown"
as_str failed = "failed"
as_str cancelled = "cancelled"

unfoldable pub is_live_or_fenced : PostState → Bool
is_live_or_fenced sending = true
is_live_or_fenced published = true
is_live_or_fenced unknown = true
is_live_or_fenced _ = false

unfoldable pub is_queue_mutable : PostState → Bool
is_queue_mutable draft = true
is_queue_mutable queued = true
is_queue_mutable failed = true
is_queue_mutable _ = false

unfoldable pub post_state_try_from : String → Result String PostState
post_state_try_from value =
    if str_eq value "draft"
    then ok draft
    else if str_eq value "queued"
    then ok queued
    else if str_eq value "sending"
    then ok sending
    else if str_eq value "published"
    then ok published
    else if str_eq value "unknown"
    then ok unknown
    else if str_eq value "failed"
    then ok failed
    else if str_eq value "cancelled"
    then ok cancelled
    else err value

unfoldable pub action_as_str : PublicationAction → String
action_as_str queue = "queue"
action_as_str post_now = "post_now"

unfoldable pub action_try_from : String → Result String PublicationAction
action_try_from value =
    if str_eq value "queue"
    then ok queue
    else if str_eq value "post_now"
    then ok post_now
    else err value

pub record RepeatConflict : Type 0 where
  pub post_id : ℕ
  pub state : PostState
  pub at : ℕ
  pub target_message_link : Option String

pub record RepeatEvidence : Type 0 where
  pub conflicts : List RepeatConflict

pub record Post : Type 0 where
  pub id : ℕ
  pub media_id : ℕ
  pub channel_id : ℕ
  pub origin_ingest_id : Option ℕ
  pub requested_action : PublicationAction
  pub requested_publish_at : Option ℕ
  pub repeat_evidence : Option RepeatEvidence
  pub caption : Option (List ℕ)
  pub parse_mode : Option (List ℕ)
  pub disable_notification : Bool
  pub state : PostState
  pub scheduled_at : ℕ
  pub cadence_slot_at : Option ℕ
  pub send_generation : ℕ
  pub send_token : Option ℕ
  pub send_started_at : Option ℕ
  pub telegram_message_id : Option ℤ
  pub published_at : Option ℕ
  pub error_class : Option String
  pub error_message : Option String
  pub created_at : ℕ
  pub updated_at : ℕ
  pub revision : ℕ

-- The errors that the modelled operations return. `database` stands for those that the database itself
-- raises, and `evidence` for serde_json's.
pub data PublisherRepositoryError : Type 0 where
  validation : PublisherValidationError → PublisherRepositoryError
  invalid_state invalid_publication_action : String → PublisherRepositoryError
  invalid_time_zone : List ℕ → PublisherRepositoryError
  channel_missing channel_disabled media_missing post_missing : ℕ → PublisherRepositoryError
  media_not_ready : ℕ → String → PublisherRepositoryError
  post_not_editable post_cannot_be_scheduled : ℕ → PostState → PublisherRepositoryError
  post_decision_not_allowed post_not_claimable : ℕ → PostState → PublisherRepositoryError
  invalid_publication_decision : ℕ → PublicationDecision → PublisherRepositoryError
  repeat_decision_required exact_time_missing : ℕ → PublisherRepositoryError
  request_key_conflict : List ℕ → PublisherRepositoryError
  optimistic_conflict publish_lease_lost publish_conflict : ℕ → PublisherRepositoryError
  stale_publication_job publish_job_running publish_job_update_lost : ℕ → PublisherRepositoryError
  publish_job_unavailable : ℕ → String → PublisherRepositoryError
  empty_update revision_overflow cadence_search_exhausted : PublisherRepositoryError
  exact_schedule_in_past invalid_timestamp database : PublisherRepositoryError
  invalid_publish_failure_state : PostState → PublisherRepositoryError
  invalid_telegram_message_id : ℤ → PublisherRepositoryError
  evidence : String → PublisherRepositoryError

pub record PostRow (Value : Type 0) : Type 0 where
  pub id : ℕ
  pub request_key : Option (List ℕ)
  pub request_hash : Option (List ℕ)
  pub origin_ingest_id : Option ℕ
  pub requested_action : String
  pub requested_publish_at : Option ℕ
  pub repeat_evidence : Option Value
  pub decision_request_key : Option (List ℕ)
  pub decision_request_hash : Option (List ℕ)
  pub schedule_request_key : Option (List ℕ)
  pub schedule_request_hash : Option (List ℕ)
  pub media_id : ℕ
  pub channel_id : ℕ
  pub state : String
  pub caption : Option (List ℕ)
  pub parse_mode : Option (List ℕ)
  pub disable_notification : Bool
  pub scheduled_at : ℕ
  pub cadence_slot_at : Option ℕ
  pub send_generation : ℕ
  pub send_token : Option ℕ
  pub send_started_at : Option ℕ
  pub telegram_message_id : Option ℤ
  pub published_at : Option ℕ
  pub error_class : Option String
  pub error_message : Option String
  pub created_at : ℕ
  pub updated_at : ℕ
  pub revision : ℕ

unfoldable pub post_state :
    {Value : Type 0} → PostRow Value → Result PublisherRepositoryError PostState
post_state row = map_err invalid_state (post_state_try_from row.state)

-- `map(from_value).transpose()`
abbrev pub read_evidence :
    {Value : Type 0}
    → (Value → Result String RepeatEvidence)
    → Option Value
    → Result PublisherRepositoryError (Option RepeatEvidence)
read_evidence from_value none = ok none
read_evidence from_value (some value) =
    map_err evidence (from_value value) >>= λ read. ok (some read)

-- `PostRow::into_post`; `from_value` is serde_json's.
unfoldable pub into_post :
    {Value : Type 0}
    → (Value → Result String RepeatEvidence)
    → PostRow Value
    → Result PublisherRepositoryError Post
into_post from_value row = do
  state ← post_state row
  requested_action ←
      map_err (λ _. invalid_publication_action row.requested_action)
        (action_try_from row.requested_action)
  repeat_evidence ← read_evidence from_value row.repeat_evidence
  ok (record {
    id = row.id;
    media_id = row.media_id;
    channel_id = row.channel_id;
    origin_ingest_id = row.origin_ingest_id;
    requested_action = requested_action;
    requested_publish_at = row.requested_publish_at;
    repeat_evidence = repeat_evidence;
    caption = row.caption;
    parse_mode = row.parse_mode;
    disable_notification = row.disable_notification;
    state = state;
    scheduled_at = row.scheduled_at;
    cadence_slot_at = row.cadence_slot_at;
    send_generation = row.send_generation;
    send_token = row.send_token;
    send_started_at = row.send_started_at;
    telegram_message_id = row.telegram_message_id;
    published_at = row.published_at;
    error_class = row.error_class;
    error_message = row.error_message;
    created_at = row.created_at;
    updated_at = row.updated_at;
    revision = row.revision;
  })
