-- ===== src/Publisher/Commands/Revisions/Sending.antt =====
-- The steps of a send replace one post by its next revision, and only the lease of the current send ends it.
use sooqa.Prelude.{
  ℕ, ◌≡◌, refl, sym, ◌∙◌, arith, String, Bool, true, false, not, ◌||◌, if◌then◌else◌, inl, inr, leb,
  List, none, some,
}
use sooqa.Prelude.Strings.{str_eq}
use sooqa.Prelude.Int.{ℤ, pos, leb_ℤ}
use sooqa.Prelude.Tables.Rewrites.{Distinct, Mem}
use sooqa.Jobs.Rows.{JobRow, JobLease}
use sooqa.Publisher.Posts.{
  PostState, PostRow, as_str, draft, queued, sending, published, unknown, failed, cancelled,
}
use sooqa.Publisher.Posts.Valid.{sending-IsOpen, queued-IsOpen}
use sooqa.Publisher.Slots.{ChannelRow}
use sooqa.Publisher.Store.{Environment, Moment}
use sooqa.Publisher.Store.Runs.{
  From, Still, still, lifted, refused, locked, bind-From, weaken, returned, branch,
}
use sooqa.Publisher.Store.Still.{
  pure-Still, post_channel_id-Still, lock_channel-Still, ensure_media_ready-Still,
}
use sooqa.Publisher.Store.Swaps.{post_id_of, asked, updated}
use sooqa.Publisher.Queue.Still.{update_jobs-Still, lock_current_job_attempt-Still}
use sooqa.Publisher.Commands.Sending.{
  PublishLease, is_sent_by, claimed_post, claim_row, claims, published_post, same_state,
  complete_row, complete_sent, complete_published, ended_send, fail_row, retried_send, retry_row,
  retried_job, interrupted_send, is_interrupted, reconcile_row,
}
use sooqa.Publisher.Commands.Revisions.{Command, Replaced, Updated-Replaced, next_revision-suc}
use sooqa.Publisher.Commands.Revisions.Sends.{
  Claimed, Sent, sent_id, sent_parts, claims_id, claims_parts, int_eq-swap, claimed-IsPost,
  published-IsPost, IsEnd, ended-IsPost, retried-IsPost,
}

module _ {Value Zone : Type 0} (env : Environment Value Zone) (moment : Moment) where
  pub claim_row-Command :
      (id : ℕ) (expected : ℤ) (attempt : JobLease) (posts : List (PostRow Value))
      → Distinct post_id_of posts
      → From posts
          (claim_row env moment id expected attempt)
          (λ claim. Command id (Claimed expected) posts claim.0)
  unfolding claim_row
  claim_row-Command id expected attempt posts d =
      still _ _ _ _ (post_channel_id-Still Value id) λ channel_id.
        still _ _ _ _ (lock_channel-Still Value channel_id) λ channel.
          locked _ id _ _ λ current m same.
            still _ _ _ _ (lock_current_job_attempt-Still env moment id attempt) λ _.
              lifted _ _ _ _ λ state read. refused _ _ _ _ _ λ _. refused _ _ _ _ _ λ _.
                refused _ _ _ _ _ λ _.
                  still _ _ _ _ (ensure_media_ready-Still Value current.media_id) λ _.
                    lifted _ _ _ _ λ revision next.
                      bind-From _ _ _ _ _
                        (updated current (claims env moment id expected)
                          (claimed_post env moment revision) _
                          (λ b h. claims_id env moment id expected b h ∙ sym same) refl d m)
                        λ row posts' done. returned _ _ _ (
                          inr (
                            let parts = claims_parts env moment id expected current done.1 in
                            Updated-Replaced id _ posts row posts' current
                              (claims env moment id expected) (claimed_post env moment revision) m
                              same refl
                              (
                                int_eq-swap env moment (pos current.revision) expected parts.1,
                                (parts.0, refl),
                              )
                              (queued-IsOpen current parts.0) (next_revision-suc _ _ next)
                              (omega arith) (claimed-IsPost env moment revision current parts.0)
                              done))

  complete_sent-Command :
      (id : ℕ) (lease : PublishLease) (telegram_message_id : ℤ) (channel : ChannelRow)
      (current : PostRow Value) (state : PostState) (posts : List (PostRow Value))
      → Distinct post_id_of posts
      → Mem current posts
      → current.id ≡ id
      → leb_ℤ telegram_message_id (pos 0) ≡ false
      → From posts
          (complete_sent env moment id lease telegram_message_id channel current state)
          (λ done. Command id (Sent lease) posts done.0)
  unfolding complete_sent
  complete_sent-Command id lease telegram_message_id channel current state posts d m same positive =
      refused _ _ _ _ _ λ _.
        bind-From _ _ _ _ _
          (updated current (is_sent_by env moment id lease)
            (published_post env moment telegram_message_id) _
            (λ b h. sent_id env moment id lease b h ∙ sym same) refl d m)
          λ row posts' done. returned _ _ _ (
            inr (
              let (sending_now, (generation, token)) =
                sent_parts env moment id lease current done.1 in
              Updated-Replaced id (Sent lease) posts row posts' current
                (is_sent_by env moment id lease) (published_post env moment telegram_message_id) m
                same refl (sending_now, (generation, token)) (sending-IsOpen current sending_now)
                refl (omega arith)
                (published-IsPost env moment telegram_message_id current positive sending_now)
                done))

  pub complete_row-Command :
      (id : ℕ) (lease : PublishLease) (telegram_message_id : ℤ) (posts : List (PostRow Value))
      → Distinct post_id_of posts
      → From posts
          (complete_row env moment id lease telegram_message_id)
          (λ done. Command id (Sent lease) posts done.0)
  unfolding complete_row complete_published
  complete_row-Command id lease telegram_message_id posts d = refused _ _ _ _ _ λ positive.
      still _ _ _ _ (post_channel_id-Still Value id) λ channel_id.
        still _ _ _ _ (lock_channel-Still Value channel_id) λ channel.
          locked _ id _ _ λ current m same.
            still _ _ _ _ (lock_current_job_attempt-Still env moment id lease.attempt) λ _.
              lifted _ _ _ _ λ state read.
                branch _ (same_state state published)
                  (complete_published env moment id lease telegram_message_id channel current)
                  (complete_sent env moment id lease telegram_message_id channel current state) _
                  (λ _. refused _ _ _ _ _ λ _.
                    returned _ _ _
                      (inl (record { was_there = m; same_id = same; unchanged = refl })))
                  (λ _.
                    complete_sent-Command id lease telegram_message_id channel current state posts d
                      m same positive)

  failure-IsEnd :
      (state : PostState)
      → not (same_state state failed || same_state state unknown) ≡ false
      → IsEnd env moment (as_str state)
  unfolding as_str
  failure-IsEnd failed h = (refl, refl)
  failure-IsEnd unknown h = (refl, refl)
  failure-IsEnd draft h = absurd (cc h)
  failure-IsEnd queued h = absurd (cc h)
  failure-IsEnd sending h = absurd (cc h)
  failure-IsEnd published h = absurd (cc h)
  failure-IsEnd cancelled h = absurd (cc h)

  pub fail_row-Command :
      (id : ℕ) (lease : PublishLease) (state : PostState) (class message : String)
      (posts : List (PostRow Value))
      → Distinct post_id_of posts
      → From posts
          (fail_row env moment id lease state class message)
          (Command id (Sent lease) posts)
  unfolding fail_row
  fail_row-Command id lease state class message posts d = refused _ _ _ _ _ λ failure.
      still _ _ _ _ (post_channel_id-Still Value id) λ channel_id.
        still _ _ _ _ (lock_channel-Still Value channel_id) λ channel.
          locked _ id _ _ λ current m same.
            still _ _ _ _ (lock_current_job_attempt-Still env moment id lease.attempt) λ _.
              let f : PostRow Value → PostRow Value =
                ended_send env moment (as_str state) class message in
              weaken _ _ _ _
                (updated current (is_sent_by env moment id lease) f _
                  (λ b h. sent_id env moment id lease b h ∙ sym same) refl d m)
                λ row posts' done.
                  let (sending_now, (generation, token)) =
                    sent_parts env moment id lease current done.1 in
                  inr (
                    Updated-Replaced id (Sent lease) posts row posts' current
                      (is_sent_by env moment id lease) f m same refl
                      (sending_now, (generation, token)) (sending-IsOpen current sending_now) refl
                      (omega arith)
                      (ended-IsPost env moment "sending" (as_str state) class message current refl
                        (failure-IsEnd state failure) sending_now)
                      done)

  retry-IsEnd : (terminal : Bool) → IsEnd env moment (as_str (if terminal then failed else queued))
  unfolding as_str
  retry-IsEnd true = (refl, refl)
  retry-IsEnd false = (refl, refl)

  retried_job-Still :
      (id : ℕ) (job : JobRow Value) (terminal : Bool) (revision : ℕ)
      → Still (retried_job env moment id job terminal revision)
  unfolding retried_job
  retried_job-Still id job true revision = pure-Still Value tt
  retried_job-Still id job false revision = update_jobs-Still id _ _

  pub retry_row-Command :
      (id : ℕ) (lease : PublishLease) (class message : String) (posts : List (PostRow Value))
      → Distinct post_id_of posts
      → From posts
          (retry_row env moment id lease class message)
          (λ done. Command id (Sent lease) posts done.0)
  unfolding retry_row
  retry_row-Command id lease class message posts d =
      still _ _ _ _ (post_channel_id-Still Value id) λ channel_id.
        still _ _ _ _ (lock_channel-Still Value channel_id) λ channel.
          locked _ id _ _ λ current m same.
            still _ _ _ _ (lock_current_job_attempt-Still env moment id lease.attempt) λ job.
              lifted _ _ _ _ λ state read. refused _ _ _ _ _ λ _. lifted _ _ _ _ λ revision next.
                let terminal : Bool = leb job.max_attempts job.attempt_count in
                let f : PostRow Value → PostRow Value =
                  retried_send env moment (if terminal then failed else queued) class message
                    revision in
                bind-From _ _ _ _ _
                  (updated current (is_sent_by env moment id lease) f _
                    (λ b h. sent_id env moment id lease b h ∙ sym same) refl d m)
                  λ row posts' done.
                    let (sending_now, (generation, token)) =
                      sent_parts env moment id lease current done.1 in
                    still _ _ _ _ (retried_job-Still id job terminal row.revision) λ _.
                      returned _ _ _ (
                        inr (
                          Updated-Replaced id (Sent lease) posts row posts' current
                            (is_sent_by env moment id lease) f m same refl
                            (sending_now, (generation, token)) (sending-IsOpen current sending_now)
                            (next_revision-suc _ _ next) (omega arith)
                            (retried-IsPost env moment (if terminal then failed else queued) class
                              message revision current (retry-IsEnd terminal) sending_now)
                            done))

  -- A send that was interrupted ends, whatever its lease, or no post changes.
  abbrev pub Interrupted : ℕ → List (PostRow Value) → Bool → List (PostRow Value) → Type 0
  Interrupted id posts true posts' =
      (row : PostRow Value) × Replaced id (λ current row'. str_eq current.state "sending" ≡ true)
        posts row posts'
  Interrupted id posts false posts' = posts' ≡ posts

  interrupted_parts :
      (id : ℕ) (b : PostRow Value)
      → is_interrupted env moment id b ≡ true
      → (b.id ≡ id) × (str_eq b.state "sending" ≡ true)
  interrupted_parts id b h = (ground arith, ground arith)

  pub reconcile_row-Interrupted :
      (id : ℕ) (attempt : JobLease) (posts : List (PostRow Value))
      → Distinct post_id_of posts
      → From posts (reconcile_row env moment id attempt) (Interrupted id posts)
  unfolding reconcile_row
  reconcile_row-Interrupted id attempt posts d =
      still _ _ _ _ (post_channel_id-Still Value id) λ channel_id.
        still _ _ _ _ (lock_channel-Still Value channel_id) λ channel.
          locked _ id _ _ λ current m same.
            still _ _ _ _ (lock_current_job_attempt-Still env moment id attempt) λ _.
              bind-From _ _ _ _ _
                (asked current (is_interrupted env moment id) (interrupted_send env moment)
                  (λ b h. (interrupted_parts id b h).0 ∙ sym same) refl d m)
                elim [
                  | none ↦ λ posts' unchanged. returned _ _ _ unchanged
                  | some row ↦ λ posts' done.
                      let was_sending = (interrupted_parts id current done.1).1 in
                      returned _ _ _ (
                        row,
                        Updated-Replaced id _ posts row posts' current
                            (is_interrupted env moment id) (interrupted_send env moment) m same refl
                            was_sending (sending-IsOpen current was_sending) refl (omega arith)
                            (ended-IsPost env moment "sending" "unknown" _ _ current refl
                              (refl, refl) was_sending)
                            done,
                      )
                ]
