-- ===== src/Publisher/Repository/Conflicts.antt =====
-- Commands at a revision that has passed, and leases of a send that has passed, change no post.
use sooqa.Prelude.{ℕ, ◌≡◌, ◌≢◌, refl, sym, subst, ◌∙◌, false, inl, inr, List}
use sooqa.Prelude.Int.{pos, int_eq}
use sooqa.Prelude.Tables.Rewrites.{Mem, Distinct, Distinct-Mem}
use sooqa.Publisher.Posts.{PostRow}
use sooqa.Publisher.Store.{Environment, Moment, Store}
use sooqa.Publisher.Store.Swaps.{post_id_of}
use sooqa.Publisher.Commands.Sending.{PublishLease}
use sooqa.Publisher.Commands.Revisions.{Command, Revised}
use sooqa.Publisher.Commands.Revisions.Sends.{Sent}
use sooqa.Publisher.Commands.Revisions.Sending.{
  complete_row-Command, fail_row-Command, retry_row-Command,
}
use sooqa.Publisher.Repository.{
  PostCommand, SendEnd, target, expected, command, complete_publish_post, fail_publish_post,
  retry_publish_post, end_send, complete_publish, fail_publish, retry_publish,
}
use sooqa.Publisher.Repository.Steps.{transact_rule}
use sooqa.Publisher.Repository.Changes.{command_row-Command}

module _ {Value Zone : Type 0} (env : Environment Value Zone) (moment : Moment) where
  Command-refused :
      (id : ℕ) (Guard : PostRow Value → PostRow Value → Type 0)
      (posts posts' : List (PostRow Value)) (current row : PostRow Value)
      → Distinct post_id_of posts
      → Mem current posts
      → current.id ≡ id
      → ((x : PostRow Value) → ¬ Guard current x)
      → Command id Guard posts row posts'
      → posts' ≡ posts
  Command-refused id Guard posts posts' current row d m same never (inl replay) = replay.unchanged
  Command-refused id Guard posts posts' current row d m same never (inr r) =
      let own : r.current ≡ current =
        Distinct-Mem post_id_of r.current current posts d r.was_there m (r.same_id ∙ sym same) in
      absurd (never row (subst (λ (x : PostRow Value). Guard x row) own r.guarded))

  -- A command that expects another revision than the post has changes no post: it is refused, or it is the
  -- replay of one that was applied before.
  pub command-stale :
      (c : PostCommand) (db : Store Value) (current : PostRow Value)
      → Distinct post_id_of db.posts
      → Mem current db.posts
      → current.id ≡ target c
      → int_eq (expected c) (pos current.revision) ≡ false
      → (command env moment c db).1.posts ≡ db.posts
  unfolding command
  command-stale c db current d m same stale =
      transact_rule _ (λ posts'. posts' ≡ db.posts) _ db
        (command_row-Command env moment c db.posts d) refl
        λ row posts' h.
          Command-refused (target c) (Revised (expected c)) db.posts posts' current row d m same
            (λ x g. absurd (cc (g, stale))) h

  -- A lease whose generation is not the post's completes, fails and retries nothing: no post changes.
  pub end_send-stale :
      (id : ℕ) (lease : PublishLease) (e : SendEnd) (db : Store Value) (current : PostRow Value)
      → Distinct post_id_of db.posts
      → Mem current db.posts
      → current.id ≡ id
      → current.send_generation ≢ lease.generation
      → (end_send env moment id lease e db).posts ≡ db.posts
  unfolding end_send complete_publish_post fail_publish_post retry_publish_post
  end_send-stale id lease (complete_publish message) db current d m same stale =
      transact_rule _ (λ posts'. posts' ≡ db.posts) _ db
        (complete_row-Command env moment id lease message db.posts d) refl
        λ done posts' h.
          Command-refused id (Sent lease) db.posts posts' current done.0 d m same
            (λ x g. stale g.1.0) h
  end_send-stale id lease (fail_publish state class message) db current d m same stale =
      transact_rule _ (λ posts'. posts' ≡ db.posts) _ db
        (fail_row-Command env moment id lease state class message db.posts d) refl
        λ row posts' h.
          Command-refused id (Sent lease) db.posts posts' current row d m same (λ x g. stale g.1.0)
            h
  end_send-stale id lease (retry_publish class message) db current d m same stale =
      transact_rule _ (λ posts'. posts' ≡ db.posts) _ db
        (retry_row-Command env moment id lease class message db.posts d) refl
        λ done posts' h.
          Command-refused id (Sent lease) db.posts posts' current done.0 d m same
            (λ x g. stale g.1.0) h
