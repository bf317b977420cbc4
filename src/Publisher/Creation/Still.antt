-- ===== src/Publisher/Creation/Still.antt =====
-- The checks of a new post, and the search for one that has its key, leave the posts as they are.
use sooqa.Prelude.{ℕ, List, ◌==◌, not, false}
use sooqa.Prelude.Tables.{select_where, exists_where}
use sooqa.Publisher.Posts.{
  channel_missing, channel_disabled, media_missing, request_key_conflict, database,
}
use sooqa.Publisher.Slots.{ChannelRow}
use sooqa.Publisher.Store.{MediaRow, opt_text_eq}
use sooqa.Publisher.Store.Runs.{Still}
use sooqa.Publisher.Store.Still.{
  >>=-Still, gets-Still, or_fail-Still, pure-Still, refused-Still, refuse_if-Still,
}
use sooqa.Publisher.Creation.{validate_media_and_channel, existing_post, has_request_key}

module _ (Value : Type 0) where
  pub validate_media_and_channel-Still :
      (media_id channel_id : ℕ)
      → Still {Value = Value} (validate_media_and_channel media_id channel_id)
  unfolding validate_media_and_channel
  validate_media_and_channel-Still media_id channel_id =
      >>=-Still _ _ (gets-Still λ db. exists_where (λ (m : MediaRow). m.id == media_id) db.media)
        λ found. refused-Still (not found) (media_missing media_id) _ (
          >>=-Still _ _
            (gets-Still λ db. select_where (λ (c : ChannelRow). c.id == channel_id) db.channels)
            λ channels.
              >>=-Still _ _ (or_fail-Still Value channels (channel_missing channel_id)) λ channel.
                refuse_if-Still Value (not channel.is_enabled) (channel_disabled channel_id))

  pub existing_post-Still :
      (request_key request_hash : List ℕ)
      → Still {Value = Value} (existing_post request_key request_hash)
  unfolding existing_post
  existing_post-Still request_key request_hash =
      >>=-Still _ _ (gets-Still λ db. select_where (has_request_key request_key) db.posts) λ found.
        >>=-Still _ _ (or_fail-Still Value found database) λ existing.
          refused-Still (not (opt_text_eq existing.request_hash request_hash))
            (request_key_conflict request_key) _ (pure-Still Value (existing, false))
