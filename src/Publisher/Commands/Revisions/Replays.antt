-- ===== src/Publisher/Commands/Revisions/Replays.antt =====
-- What the schedules and decisions share: a replay, the job of a queued post, and the free slot change no post.
use sooqa.Prelude.{ℕ, ◌≡◌, refl, false, inl, List, Option, none, some, not}
use sooqa.Prelude.Tables.Rewrites.{Mem}
use sooqa.Publisher.Intent.{is_some}
use sooqa.Publisher.Posts.{
  PostState, PostRow, draft, queued, sending, published, unknown, failed, cancelled,
  request_key_conflict,
}
use sooqa.Publisher.Slots.{ChannelRow, search_free_slot}
use sooqa.Publisher.Store.{Environment, Moment, Tx, pure, opt_text_eq}
use sooqa.Publisher.Store.Runs.{From, Still, refused, returned, branch}
use sooqa.Publisher.Store.Still.{gets-Still, lift-Still, >>=-Still}
use sooqa.Publisher.Queue.Still.{update_publish_job-Still, insert_publish_job-Still}
use sooqa.Publisher.Commands.{queued_job, next_free_slot, or_replay, cadence_slots}
use sooqa.Publisher.Commands.Revisions.{Command}

-- Evidence that is not there.
pub is_some-none : {A : Type 0} (o : Option A) → is_some o ≡ false → o ≡ none
is_some-none none h = refl
is_some-none (some a) h = absurd (cc h)

module _ {Value : Type 0} where
  pub or_replay-Command :
      (id : ℕ) (Guard : PostRow Value → PostRow Value → Type 0) (posts : List (PostRow Value))
      (current : PostRow Value) (stored_key stored_hash : Option (List ℕ))
      (request_key request_hash : List ℕ) (rest : Tx Value (PostRow Value))
      → Mem current posts
      → current.id ≡ id
      → From posts rest (Command id Guard posts)
      → From posts
          (or_replay stored_key stored_hash request_key request_hash current rest)
          (Command id Guard posts)
  unfolding or_replay
  or_replay-Command id Guard posts current stored_key stored_hash request_key request_hash rest m
        same new =
      branch posts (opt_text_eq stored_key request_key) _ rest _
        (λ _.
          refused posts (not (opt_text_eq stored_hash request_hash))
            (request_key_conflict request_key) (pure current) _
            λ _.
              returned posts current _
                (inl (record { was_there = m; same_id = same; unchanged = refl })))
        (λ _. new)

module _ {Value Zone : Type 0} (env : Environment Value Zone) (moment : Moment) where
  pub queued_job-Still :
      (state : PostState) (id run_at revision : ℕ)
      → Still (queued_job env moment state id run_at revision)
  queued_job-Still draft id run_at revision = insert_publish_job-Still env moment id run_at revision
  queued_job-Still queued id run_at revision =
      update_publish_job-Still env moment id run_at revision
  queued_job-Still sending id run_at revision =
      update_publish_job-Still env moment id run_at revision
  queued_job-Still published id run_at revision =
      update_publish_job-Still env moment id run_at revision
  queued_job-Still unknown id run_at revision =
      update_publish_job-Still env moment id run_at revision
  queued_job-Still failed id run_at revision =
      update_publish_job-Still env moment id run_at revision
  queued_job-Still cancelled id run_at revision =
      update_publish_job-Still env moment id run_at revision

  pub next_free_slot-Still :
      (channel : ChannelRow) (id requested_at : ℕ)
      → Still (next_free_slot env moment channel id requested_at)
  unfolding next_free_slot
  next_free_slot-Still channel id requested_at =
      >>=-Still _ _ (gets-Still λ db. cadence_slots channel.id id db.posts) λ occupied.
        lift-Still Value (search_free_slot env.chrono moment.local occupied channel requested_at)
