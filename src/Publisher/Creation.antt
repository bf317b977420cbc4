-- ===== src/Publisher/Creation.antt =====
-- `create_post_idempotent`: a draft under a request key, or the post that has the key.
pub mod Still
use sooqa.Prelude.{
  ℕ, String, Bool, true, false, not, List, [], ◌∷◌, ◌++◌, Option, none, some, Result, ok, err,
  map_err, fail_if, ◌==◌, ◌||◌, if◌then◌else◌,
}
use sooqa.Prelude.Tables.{select_where, exists_where}
use sooqa.Publisher.Intent.{validate_optional, normalize_request_key, invalid_parse_mode}
use sooqa.Publisher.Channel.{is_unknown_mode}
use sooqa.Publisher.Posts.{
  PostRow, PublisherRepositoryError, validation, media_missing, channel_missing, channel_disabled,
  request_key_conflict, database,
}
use sooqa.Publisher.Slots.{ChannelRow}
use sooqa.Publisher.Store.{
  MediaRow, Moment, Store, Tx, ◌>>=◌, ◌>>◌, pure, lift, gets, or_fail, refuse_if, opt_text_eq,
}

pub record NewPost : Type 0 where
  pub media_id : ℕ
  pub channel_id : ℕ
  pub caption : Option (List ℕ)
  pub parse_mode : Option (List ℕ)
  pub disable_notification : Bool

unfoldable pub validate_post : NewPost → Result PublisherRepositoryError (Unit {0})
validate_post post = elim (validate_optional post.caption) [
  | err e ↦ err (validation e)
  | ok _ ↦ fail_if (is_unknown_mode post.parse_mode) (validation invalid_parse_mode)
]

module _ {Value : Type 0} where
  unfoldable pub validate_media_and_channel : ℕ → ℕ → Tx Value (Unit {0})
  validate_media_and_channel media_id channel_id = do
    exists ← gets λ db. exists_where (λ (m : MediaRow). m.id == media_id) db.media
    refuse_if (not exists) (media_missing media_id)
    found ← gets λ db. select_where (λ (c : ChannelRow). c.id == channel_id) db.channels
    channel ← or_fail found (channel_missing channel_id)
    refuse_if (not channel.is_enabled) (channel_disabled channel_id)

  -- The unique index on the keys that are set.
  abbrev pub has_request_key : List ℕ → PostRow Value → Bool
  has_request_key key row = opt_text_eq row.request_key key

  -- `INSERT … ON CONFLICT (request_key) … DO NOTHING RETURNING *`
  unfoldable pub insert_post : PostRow Value → List ℕ → Tx Value (Option (PostRow Value))
  insert_post row request_key db =
      if exists_where (has_request_key request_key) db.posts
      then ok (none, db)
      else if exists_where (λ (other : PostRow Value). other.id == row.id) db.posts
      then err database
      else ok (some row, record db { posts = db.posts ++ row ∷ [] })

  -- The post that has the key already, if the request was the same.
  unfoldable pub existing_post : List ℕ → List ℕ → Tx Value (PostRow Value × Bool)
  existing_post request_key request_hash = do
    found ← gets λ db. select_where (has_request_key request_key) db.posts
    existing ← or_fail found database
    refuse_if (not (opt_text_eq existing.request_hash request_hash))
        (request_key_conflict request_key)
    pure (existing, false)

module _ {Value : Type 0} (moment : Moment) where
  abbrev pub draft_row : NewPost → List ℕ → List ℕ → PostRow Value
  draft_row post request_key request_hash = record {
    id = moment.fresh;
    request_key = some request_key;
    request_hash = some request_hash;
    origin_ingest_id = none;
    requested_action = "queue";
    requested_publish_at = none;
    repeat_evidence = none;
    decision_request_key = none;
    decision_request_hash = none;
    schedule_request_key = none;
    schedule_request_hash = none;
    media_id = post.media_id;
    channel_id = post.channel_id;
    state = "draft";
    caption = post.caption;
    parse_mode = post.parse_mode;
    disable_notification = post.disable_notification;
    scheduled_at = moment.now;
    cadence_slot_at = none;
    send_generation = 0;
    send_token = none;
    send_started_at = none;
    telegram_message_id = none;
    published_at = none;
    error_class = none;
    error_message = none;
    created_at = moment.now;
    updated_at = moment.now;
    revision = 0;
  }

  unfoldable pub create_row : NewPost → List ℕ → List ℕ → Tx Value (PostRow Value × Bool)
  create_row post value request_hash = do
    lift (validate_post post)
    request_key ← lift (map_err validation (normalize_request_key value))
    validate_media_and_channel post.media_id post.channel_id
    inserted ← insert_post (draft_row post request_key request_hash) request_key
    elim inserted [ some row ↦ pure (row, true) | none ↦ existing_post request_key request_hash ]
