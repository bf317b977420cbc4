-- ===== src/Publisher/Commands/Revisions/Schedules.antt =====
-- `schedule_post`, `schedule_post_exact` and `publish_now` are replays, or replace one post by its next
-- revision.
use sooqa.Prelude.{
  ℕ, arith, ◌≡◌, refl, sym, ◌∙◌, false, ◌⊎◌, inl, inr, List, Option, none, some, ok,
}
use sooqa.Prelude.Strings.{str_eq}
use sooqa.Prelude.Int.{ℤ}
use sooqa.Prelude.Tables.Rewrites.{Distinct, Mem}
use sooqa.Publisher.Posts.{PostState, PostRow, post_state}
use sooqa.Publisher.Posts.Valid.{IsPost, mutable-IsOpen, mutable-not_sending, not_sending-token}
use sooqa.Publisher.Slots.{ChannelRow}
use sooqa.Publisher.Store.{Environment, Moment}
use sooqa.Publisher.Store.Runs.{From, still, lifted, refused, locked, bind-From, returned}
use sooqa.Publisher.Store.Still.{
  post_channel_id-Still, lock_channel-Still, ensure_media_ready-Still,
}
use sooqa.Publisher.Store.Swaps.{post_id_of, updated}
use sooqa.Publisher.Hashes.{
  PostSchedule, PostExactSchedule, schedule_request_hash, exact_schedule_request_hash,
  publish_now_request_hash, exact_key, publish_now_key,
}
use sooqa.Publisher.Commands.{is_waiting, waits_as, exactly_waits}
use sooqa.Publisher.Commands.Schedules.{
  scheduled, schedule_new, schedule_row, scheduled_exactly, apply_exact_schedule, exact_new,
  exact_row, publish_now_new, publish_now_row,
}
use sooqa.Publisher.Commands.Revisions.{
  Command, Revised, Updated-Replaced, check_expected_revision-eq, next_revision-suc, not-false,
  id_of_test,
}
use sooqa.Publisher.Commands.Revisions.Replays.{
  is_some-none, or_replay-Command, queued_job-Still, next_free_slot-Still,
}

module _ {Value Zone : Type 0} (env : Environment Value Zone) (moment : Moment) where
  scheduled-IsPost :
      (request_key request_hash : List ℕ) (at_time : ℕ) (slot : Option ℕ) (revision : ℕ)
      (current : PostRow Value)
      → (slot ≡ none) ⊎ (slot ≡ some at_time)
      → str_eq current.state "sending" ≡ false
      → current.repeat_evidence ≡ none
      → IsPost current
      → IsPost (scheduled env moment request_key request_hash at_time slot revision current)
  scheduled-IsPost request_key request_hash at_time slot revision current fits waits resolved v =
      record {
        fence = inr (refl, not_sending-token current v waits);
        message = inl refl;
        slot = fits;
        reviewed = inl resolved;
      }

  schedule_new-Command :
      (schedule : PostSchedule) (channel : ChannelRow) (current : PostRow Value) (state : PostState)
      (posts : List (PostRow Value))
      → Distinct post_id_of posts
      → Mem current posts
      → current.id ≡ schedule.post_id
      → post_state current ≡ ok state
      → From posts
          (schedule_new env moment schedule channel current state)
          (Command schedule.post_id (Revised schedule.expected_revision) posts)
  unfolding schedule_new
  schedule_new-Command schedule channel current state posts d m same read =
      refused _ _ _ _ _ λ mutable. lifted _ _ _ _ λ _ asked. refused _ _ _ _ _ λ resolved.
        refused _ _ _ _ _ λ _. still _ _ _ _ (ensure_media_ready-Still Value current.media_id) λ _.
          still _ _ _ _ (next_free_slot-Still env moment channel current.id schedule.requested_at)
            λ slot. lifted _ _ _ _ λ revision next.
              let f : PostRow Value → PostRow Value =
                scheduled env moment schedule.request_key (schedule_request_hash env schedule) slot
                  (some slot) revision in
              bind-From _ _ _ _ _
                (updated current (waits_as current.id) f _
                  (λ b h. id_of_test b.id current.id (is_waiting b) h) refl d m)
                λ row posts' done.
                  still _ _ _ _ (queued_job-Still env moment state row.id slot row.revision) λ _.
                    returned _ _ _ (
                      inr (
                        Updated-Replaced schedule.post_id _ posts row posts' current
                          (waits_as current.id) f m same refl
                          (check_expected_revision-eq current schedule.expected_revision _ asked)
                          (mutable-IsOpen current state read (not-false _ mutable))
                          (next_revision-suc _ _ next) (omega arith)
                          (scheduled-IsPost schedule.request_key
                            (schedule_request_hash env schedule) slot (some slot) revision current
                            (inr refl)
                            (mutable-not_sending current state read (not-false _ mutable))
                            (is_some-none _ resolved))
                          done))

  pub schedule_row-Command :
      (schedule : PostSchedule) (posts : List (PostRow Value))
      → Distinct post_id_of posts
      → From posts
          (schedule_row env moment schedule)
          (Command schedule.post_id (Revised schedule.expected_revision) posts)
  unfolding schedule_row
  schedule_row-Command schedule posts d =
      still _ _ _ _ (post_channel_id-Still Value schedule.post_id) λ channel_id.
        still _ _ _ _ (lock_channel-Still Value channel_id) λ channel.
          locked _ schedule.post_id _ _ λ current m same. lifted _ _ _ _ λ state read.
            or_replay-Command schedule.post_id _ posts current _ _ _ _ _ m same
              (schedule_new-Command schedule channel current state posts d m same read)

  exact-IsPost :
      (request_key request_hash : List ℕ) (at_time revision : ℕ) (current : PostRow Value)
      → str_eq current.state "sending" ≡ false
      → IsPost current
      → IsPost (scheduled_exactly env moment request_key request_hash at_time revision current)
  exact-IsPost request_key request_hash at_time revision current waits v = record {
    fence = inr (refl, not_sending-token current v waits);
    message = inl refl;
    slot = inl refl;
    reviewed = inl refl;
  }

  exact_new-Command :
      (schedule : PostExactSchedule) (channel : ChannelRow) (current : PostRow Value)
      (posts : List (PostRow Value))
      → Distinct post_id_of posts
      → Mem current posts
      → current.id ≡ schedule.post_id
      → From posts
          (exact_new env moment schedule channel current)
          (Command schedule.post_id (Revised schedule.expected_revision) posts)
  unfolding exact_new apply_exact_schedule
  exact_new-Command schedule channel current posts d m same = refused _ _ _ _ _ λ _.
      lifted _ _ _ _ λ state read. refused _ _ _ _ _ λ mutable. lifted _ _ _ _ λ _ asked.
        refused _ _ _ _ _ λ resolved. refused _ _ _ _ _ λ _.
          still _ _ _ _ (ensure_media_ready-Still Value current.media_id) λ _.
            lifted _ _ _ _ λ revision next.
              let f : PostRow Value → PostRow Value =
                scheduled_exactly env moment (exact_key schedule.request_key)
                  (exact_schedule_request_hash env schedule.requested_at) schedule.requested_at
                  revision in
              bind-From _ _ _ _ _
                (updated current (exactly_waits current) f _ (λ b h. id_of_test b.id current.id _ h)
                  refl d m)
                λ row posts' done.
                  still _ _ _ _
                    (queued_job-Still env moment state row.id schedule.requested_at row.revision)
                    λ _. returned _ _ _ (
                      inr (
                        Updated-Replaced schedule.post_id _ posts row posts' current
                          (exactly_waits current) f m same refl
                          (check_expected_revision-eq current schedule.expected_revision _ asked)
                          (mutable-IsOpen current state read (not-false _ mutable))
                          (next_revision-suc _ _ next) (omega arith)
                          (exact-IsPost (exact_key schedule.request_key)
                            (exact_schedule_request_hash env schedule.requested_at)
                            schedule.requested_at revision current
                            (mutable-not_sending current state read (not-false _ mutable)))
                          done))

  pub exact_row-Command :
      (schedule : PostExactSchedule) (posts : List (PostRow Value))
      → Distinct post_id_of posts
      → From posts
          (exact_row env moment schedule)
          (Command schedule.post_id (Revised schedule.expected_revision) posts)
  unfolding exact_row
  exact_row-Command schedule posts d =
      still _ _ _ _ (post_channel_id-Still Value schedule.post_id) λ channel_id.
        still _ _ _ _ (lock_channel-Still Value channel_id) λ channel.
          locked _ schedule.post_id _ _ λ current m same.
            or_replay-Command schedule.post_id _ posts current _ _ _ _ _ m same
              (exact_new-Command schedule channel current posts d m same)

  publish_now_new-Command :
      (id : ℕ) (request_key : List ℕ) (expected : ℤ) (channel : ChannelRow)
      (current : PostRow Value) (state : PostState) (posts : List (PostRow Value))
      → Distinct post_id_of posts
      → Mem current posts
      → current.id ≡ id
      → post_state current ≡ ok state
      → From posts
          (publish_now_new env moment id request_key expected channel current state)
          (Command id (Revised expected) posts)
  unfolding publish_now_new
  publish_now_new-Command id request_key expected channel current state posts d m same read =
      refused _ _ _ _ _ λ mutable. lifted _ _ _ _ λ _ asked. refused _ _ _ _ _ λ resolved.
        refused _ _ _ _ _ λ _. still _ _ _ _ (ensure_media_ready-Still Value current.media_id) λ _.
          lifted _ _ _ _ λ revision next.
            let f : PostRow Value → PostRow Value =
              scheduled env moment (publish_now_key request_key)
                (publish_now_request_hash env request_key) moment.local none revision in
            bind-From _ _ _ _ _
              (updated current (waits_as id) f _
                (λ b h. id_of_test b.id id (is_waiting b) h ∙ sym same) refl d m)
              λ row posts' done.
                still _ _ _ _ (queued_job-Still env moment state id moment.local row.revision) λ _.
                  returned _ _ _ (
                    inr (
                      Updated-Replaced id _ posts row posts' current (waits_as id) f m same refl
                        (check_expected_revision-eq current expected _ asked)
                        (mutable-IsOpen current state read (not-false _ mutable))
                        (next_revision-suc _ _ next) (omega arith)
                        (scheduled-IsPost (publish_now_key request_key)
                          (publish_now_request_hash env request_key) moment.local none revision
                          current (inl refl)
                          (mutable-not_sending current state read (not-false _ mutable))
                          (is_some-none _ resolved))
                        done))

  pub publish_now_row-Command :
      (id : ℕ) (value : List ℕ) (expected : ℤ) (posts : List (PostRow Value))
      → Distinct post_id_of posts
      → From posts
          (publish_now_row env moment id value expected)
          (Command id (Revised expected) posts)
  unfolding publish_now_row
  publish_now_row-Command id value expected posts d = lifted _ _ _ _ λ request_key _.
      still _ _ _ _ (post_channel_id-Still Value id) λ channel_id.
        still _ _ _ _ (lock_channel-Still Value channel_id) λ channel.
          locked _ id _ _ λ current m same. lifted _ _ _ _ λ state read.
            or_replay-Command id _ posts current _ _ _ _ _ m same (
              publish_now_new-Command id request_key expected channel current state posts d m same
                read)
