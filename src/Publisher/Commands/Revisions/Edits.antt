-- ===== src/Publisher/Commands/Revisions/Edits.antt =====
-- `update_post` and `cancel_post` replace one post by its next revision.
use sooqa.Prelude.{ℕ, ◌≡◌, refl, sym, ◌∙◌, arith, false, ==_iff, inl, inr, List}
use sooqa.Prelude.Strings.{str_eq}
use sooqa.Prelude.Int.{ℤ}
use sooqa.Prelude.Tables.Rewrites.{Distinct}
use sooqa.Publisher.Posts.{
  PostState, PostRow, draft, queued, sending, published, unknown, failed, cancelled,
}
use sooqa.Publisher.Posts.Valid.{IsPost, mutable-IsOpen, mutable-not_sending, not_sending-token}
use sooqa.Publisher.Store.{Environment, Moment, post_is}
use sooqa.Publisher.Store.Runs.{
  From, Still, still, lifted, refused, locked, bind-From, weaken, returned,
}
use sooqa.Publisher.Store.Still.{pure-Still, post_channel_id-Still, lock_channel-Still}
use sooqa.Publisher.Store.Swaps.{post_id_of, updated}
use sooqa.Publisher.Queue.Still.{
  update_publish_job-Still, update_failed_publish_job-Still, cancel_publish_job-Still,
}
use sooqa.Publisher.Hashes.{PostUpdate}
use sooqa.Publisher.Commands.{is_waiting, waits_as}
use sooqa.Publisher.Commands.Edits.{
  update_row, update_checked, edited, edited_job, cancel_row, cancelled_post, job_cancelled,
}
use sooqa.Publisher.Commands.Revisions.{
  not-false, id_of_test, Command, Revised, Updated-Replaced, check_expected_revision-eq,
  next_revision-suc,
}

module _ {Value Zone : Type 0} (env : Environment Value Zone) (moment : Moment) where
  edited_job-Still :
      (state : PostState) (row : PostRow Value) → Still (edited_job env moment state row)
  edited_job-Still draft row = pure-Still Value tt
  edited_job-Still queued row =
      update_publish_job-Still env moment row.id row.scheduled_at row.revision
  edited_job-Still failed row =
      update_failed_publish_job-Still env moment row.id row.scheduled_at row.revision
  edited_job-Still sending row = pure-Still Value tt
  edited_job-Still published row = pure-Still Value tt
  edited_job-Still unknown row = pure-Still Value tt
  edited_job-Still cancelled row = pure-Still Value tt

  edited-IsPost :
      (update : PostUpdate) (current : PostRow Value)
      → IsPost current
      → IsPost (edited env moment update current current)
  edited-IsPost update current v = record {
    fence = v.fence;
    message = v.message;
    slot = v.slot;
    reviewed = v.reviewed;
  }

  pub update_row-Command :
      (id : ℕ) (update : PostUpdate) (posts : List (PostRow Value))
      → Distinct post_id_of posts
      → From posts
          (update_row env moment id update)
          (Command id (Revised update.expected_revision) posts)
  unfolding update_row
  update_row-Command id update posts d =
      still _ _ _ _ (post_channel_id-Still Value id) λ channel_id.
        still _ _ _ _ (lock_channel-Still Value channel_id) λ _. locked _ id _ _ λ current m same.
          lifted _ _ _ _ λ state read. refused _ _ _ _ _ λ mutable. lifted _ _ _ _ λ _ asked.
            refused _ _ _ _ _ λ _.
              bind-From _ _ _ _ _
                (updated current (post_is id) (edited env moment update current) _
                  (λ b h. (==_iff b.id id).0 h ∙ sym same) refl d m)
                λ row posts' done. still _ _ _ _ (edited_job-Still state row) λ _. returned _ _ _ (
                  inr (
                    Updated-Replaced id _ posts row posts' current (post_is id)
                      (edited env moment update current) m same refl
                      (check_expected_revision-eq current update.expected_revision _ asked)
                      (mutable-IsOpen current state read (not-false _ mutable)) refl (omega arith)
                      (edited-IsPost update current) done))

  pub update_checked-Command :
      (id : ℕ) (update : PostUpdate) (posts : List (PostRow Value))
      → Distinct post_id_of posts
      → From posts
          (update_checked env moment id update)
          (Command id (Revised update.expected_revision) posts)
  unfolding update_checked
  update_checked-Command id update posts d =
      refused _ _ _ _ _ λ _. lifted _ _ _ _ λ _ _. update_row-Command id update posts d

  job_cancelled-Still : (state : PostState) (id : ℕ) → Still (job_cancelled env moment state id)
  job_cancelled-Still draft id = pure-Still Value tt
  job_cancelled-Still queued id = cancel_publish_job-Still env moment id
  job_cancelled-Still failed id = cancel_publish_job-Still env moment id
  job_cancelled-Still sending id = cancel_publish_job-Still env moment id
  job_cancelled-Still published id = cancel_publish_job-Still env moment id
  job_cancelled-Still unknown id = cancel_publish_job-Still env moment id
  job_cancelled-Still cancelled id = cancel_publish_job-Still env moment id

  cancelled-IsPost :
      (revision : ℕ) (current : PostRow Value)
      → str_eq current.state "sending" ≡ false
      → IsPost current
      → IsPost (cancelled_post env moment revision current)
  cancelled-IsPost revision current waits v = record {
    fence = inr (refl, not_sending-token current v waits);
    message = inl refl;
    slot = inl refl;
    reviewed = inr refl;
  }

  pub cancel_row-Command :
      (id : ℕ) (expected : ℤ) (posts : List (PostRow Value))
      → Distinct post_id_of posts
      → From posts (cancel_row env moment id expected) (Command id (Revised expected) posts)
  unfolding cancel_row
  cancel_row-Command id expected posts d =
      still _ _ _ _ (post_channel_id-Still Value id) λ channel_id.
        still _ _ _ _ (lock_channel-Still Value channel_id) λ _. locked _ id _ _ λ current m same.
          lifted _ _ _ _ λ state read. refused _ _ _ _ _ λ mutable. lifted _ _ _ _ λ _ asked.
            still _ _ _ _ (job_cancelled-Still state id) λ _. lifted _ _ _ _ λ revision next.
              weaken _ _ _ _
                (updated current (waits_as id) (cancelled_post env moment revision) _
                  (λ b h. id_of_test b.id id (is_waiting b) h ∙ sym same) refl d m)
                λ row posts' done. inr (
                  Updated-Replaced id _ posts row posts' current (waits_as id)
                    (cancelled_post env moment revision) m same refl
                    (check_expected_revision-eq current expected _ asked)
                    (mutable-IsOpen current state read (not-false _ mutable))
                    (next_revision-suc _ _ next) (omega arith)
                    (cancelled-IsPost revision current
                      (mutable-not_sending current state read (not-false _ mutable)))
                    done)
