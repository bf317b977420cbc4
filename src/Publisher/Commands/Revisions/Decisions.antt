-- ===== src/Publisher/Commands/Revisions/Decisions.antt =====
-- `decide_post` is a replay, or replaces one post by its next revision.
use sooqa.Prelude.{
  ℕ, ◌+◌, ◌≡◌, refl, sym, ◌∙◌, arith, true, false, ◌⊎◌, inl, inr, List, Option, none, some,
}
use sooqa.Prelude.Strings.{str_eq}
use sooqa.Prelude.Int.{ℤ, pos, int_eq}
use sooqa.Prelude.Tables.Rewrites.{Distinct, Mem}
use sooqa.Publisher.Intent.{
  PublicationDecision, post_now_anyway, queue_anyway, keep_exact_time, cancel,
}
use sooqa.Publisher.Posts.{
  PostState, PostRow, exact_time_missing, draft, queued, sending, published, unknown, failed,
  cancelled, is_queue_mutable,
}
use sooqa.Publisher.Posts.Valid.{
  IsPost, IsOpen, mutable-IsOpen, mutable-not_sending, not_sending-token,
}
use sooqa.Publisher.Slots.{ChannelRow}
use sooqa.Publisher.Store.{Environment, Moment}
use sooqa.Publisher.Store.Runs.{From, still, lifted, refused, locked, bind-From, weaken, returned}
use sooqa.Publisher.Store.Still.{
  post_channel_id-Still, lock_channel-Still, ensure_media_ready-Still, or_fail-Still,
}
use sooqa.Publisher.Store.Swaps.{post_id_of, updated}
use sooqa.Publisher.Queue.Still.{insert_publish_job-Still}
use sooqa.Publisher.Hashes.{decision_request_hash}
use sooqa.Publisher.Commands.Decisions.{
  decided, decided_cancelled, is_undecided, queue_decided, apply_decision, is_draft, decide_new,
  decide_row,
}
use sooqa.Publisher.Commands.Revisions.{
  Command, Revised, Updated-Replaced, check_expected_revision-eq, next_revision-suc, not-false,
}
use sooqa.Publisher.Commands.Revisions.Replays.{or_replay-Command, next_free_slot-Still}

draft-mutable : (s : PostState) → is_draft s ≡ true → is_queue_mutable s ≡ true
unfolding is_queue_mutable
draft-mutable draft h = refl
draft-mutable queued h = refl
draft-mutable failed h = refl
draft-mutable sending h = absurd (cc h)
draft-mutable published h = absurd (cc h)
draft-mutable unknown h = absurd (cc h)
draft-mutable cancelled h = absurd (cc h)

module _ {Value Zone : Type 0} (env : Environment Value Zone) (moment : Moment) where
  undecided_id :
      (id : ℕ) (expected : ℤ) (b : PostRow Value)
      → is_undecided env moment id expected b ≡ true
      → b.id ≡ id
  undecided_id id expected b h = ground arith

  decided-IsPost :
      (request_key request_hash : List ℕ) (at_time : ℕ) (slot : Option ℕ) (revision : ℕ)
      (current : PostRow Value)
      → (slot ≡ none) ⊎ (slot ≡ some at_time)
      → str_eq current.state "sending" ≡ false
      → IsPost current
      → IsPost (decided env moment request_key request_hash "queued" at_time slot revision current)
  decided-IsPost request_key request_hash at_time slot revision current fits waits v = record {
    fence = inr (refl, not_sending-token current v waits);
    message = inl refl;
    slot = fits;
    reviewed = inl refl;
  }

  decided_cancelled-IsPost :
      (request_key request_hash : List ℕ) (revision : ℕ) (current : PostRow Value)
      → str_eq current.state "sending" ≡ false
      → IsPost current
      → IsPost (decided_cancelled env moment request_key request_hash revision current)
  decided_cancelled-IsPost request_key request_hash revision current waits v = record {
    fence = inr (refl, not_sending-token current v waits);
    message = inl refl;
    slot = inl refl;
    reviewed = inl refl;
  }

  module _ (id : ℕ) (expected : ℤ) (request_key request_hash : List ℕ) (revision : ℕ)
      (current : PostRow Value) (posts : List (PostRow Value)) (d : Distinct post_id_of posts)
      (m : Mem current posts) (same : current.id ≡ id)
      (asked : int_eq expected (pos current.revision) ≡ true)
      (next : revision ≡ current.revision + 1) (waits : str_eq current.state "sending" ≡ false)
      (opens : IsOpen current) where
    queue_decided-Command :
        (run_at : ℕ) (slot : Option ℕ)
        → (slot ≡ none) ⊎ (slot ≡ some run_at)
        → From posts
            (queue_decided env moment id expected request_key request_hash revision run_at slot)
            (Command id (Revised expected) posts)
    queue_decided-Command run_at slot fits =
        let f : PostRow Value → PostRow Value =
          decided env moment request_key request_hash "queued" run_at slot revision in
        bind-From _ _ _ _ _
          (updated current (is_undecided env moment id expected) f _
            (λ b h. undecided_id id expected b h ∙ sym same) refl d m)
          λ row posts' done.
            still _ _ _ _ (insert_publish_job-Still env moment id run_at row.revision) λ _.
              returned _ _ _ (
                inr (
                  Updated-Replaced id _ posts row posts' current
                    (is_undecided env moment id expected) f m same refl asked opens next
                    (omega arith)
                    (decided-IsPost request_key request_hash run_at slot revision current fits
                      waits)
                    done))

    apply_decision-Command :
        (decision : PublicationDecision) (channel : ChannelRow)
        → From posts
            (apply_decision env moment id decision expected request_key request_hash channel current
              revision)
            (Command id (Revised expected) posts)
    unfolding apply_decision
    apply_decision-Command cancel channel =
        let f : PostRow Value → PostRow Value =
          decided_cancelled env moment request_key request_hash revision in
        weaken _ _ _ _
          (updated current (is_undecided env moment id expected) f _
            (λ b h. undecided_id id expected b h ∙ sym same) refl d m)
          λ row posts' done. inr (
            Updated-Replaced id _ posts row posts' current (is_undecided env moment id expected) f m
              same refl asked opens next (omega arith)
              (decided_cancelled-IsPost request_key request_hash revision current waits) done)
    apply_decision-Command post_now_anyway channel = refused _ _ _ _ _ λ _.
        still _ _ _ _ (ensure_media_ready-Still Value current.media_id)
          λ _. queue_decided-Command moment.local none (inl refl)
    apply_decision-Command queue_anyway channel = refused _ _ _ _ _ λ _.
        still _ _ _ _ (ensure_media_ready-Still Value current.media_id) λ _.
          still _ _ _ _ (next_free_slot-Still env moment channel id moment.local)
            λ slot. queue_decided-Command slot (some slot) (inr refl)
    apply_decision-Command keep_exact_time channel = refused _ _ _ _ _ λ _.
        still _ _ _ _ (ensure_media_ready-Still Value current.media_id) λ _.
          still _ _ _ _ (or_fail-Still Value current.requested_publish_at (exact_time_missing id))
            λ requested_at.
              refused _ _ _ _ _ λ _. queue_decided-Command requested_at none (inl refl)

  decide_new-Command :
      (id : ℕ) (decision : PublicationDecision) (request_key : List ℕ) (expected : ℤ)
      (channel : ChannelRow) (current : PostRow Value) (posts : List (PostRow Value))
      → Distinct post_id_of posts
      → Mem current posts
      → current.id ≡ id
      → From posts
          (decide_new env moment id decision request_key expected channel current)
          (Command id (Revised expected) posts)
  unfolding decide_new
  decide_new-Command id decision request_key expected channel current posts d m same =
      lifted _ _ _ _ λ state read. refused _ _ _ _ _ λ undecided. refused _ _ _ _ _ λ _.
        lifted _ _ _ _ λ _ asked. lifted _ _ _ _ λ action _. refused _ _ _ _ _ λ _.
          lifted _ _ _ _ λ revision next.
            apply_decision-Command id expected request_key
              (decision_request_hash env decision expected) revision current posts d m same
              (check_expected_revision-eq current expected _ asked) (next_revision-suc _ _ next)
              (mutable-not_sending current state read (draft-mutable state (not-false _ undecided)))
              (mutable-IsOpen current state read (draft-mutable state (not-false _ undecided)))
              decision channel

  pub decide_row-Command :
      (id : ℕ) (decision : PublicationDecision) (value : List ℕ) (expected : ℤ)
      (posts : List (PostRow Value))
      → Distinct post_id_of posts
      → From posts
          (decide_row env moment id decision value expected)
          (Command id (Revised expected) posts)
  unfolding decide_row
  decide_row-Command id decision value expected posts d = lifted _ _ _ _ λ request_key _.
      still _ _ _ _ (post_channel_id-Still Value id) λ channel_id.
        still _ _ _ _ (lock_channel-Still Value channel_id) λ channel.
          locked _ id _ _ λ current m same.
            or_replay-Command id _ posts current _ _ _ _ _ m same
              (decide_new-Command id decision request_key expected channel current posts d m same)
