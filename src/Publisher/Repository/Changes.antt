-- ===== src/Publisher/Repository/Changes.antt =====
-- The commands and the steps of a send change one post at most, to its next revision, and only while the post
-- is open.
use sooqa.Prelude.{ℕ, sym, subst, Bool, true, false, List}
use sooqa.Prelude.Tables.Rewrites.{Distinct}
use sooqa.Publisher.Posts.{PostRow}
use sooqa.Publisher.Store.{Environment, Moment, Store}
use sooqa.Publisher.Store.Runs.{From}
use sooqa.Publisher.Store.Swaps.{post_id_of}
use sooqa.Publisher.Commands.Sending.{PublishLease}
use sooqa.Publisher.Commands.Revisions.{Command, Revised}
use sooqa.Publisher.Commands.Revisions.Edits.{update_checked-Command, cancel_row-Command}
use sooqa.Publisher.Commands.Revisions.Schedules.{
  schedule_row-Command, exact_row-Command, publish_now_row-Command,
}
use sooqa.Publisher.Commands.Revisions.Decisions.{decide_row-Command}
use sooqa.Publisher.Commands.Revisions.Sends.{Sent}
use sooqa.Publisher.Commands.Revisions.Sending.{
  Interrupted, complete_row-Command, fail_row-Command, retry_row-Command,
}
use sooqa.Publisher.Repository.{
  PostCommand, SendEnd, target, expected, command_row, command, complete_publish_post,
  fail_publish_post, retry_publish_post, end_send, update_post, schedule_post, schedule_post_exact,
  decide_post, publish_now, cancel_post, complete_publish, fail_publish, retry_publish,
}
use sooqa.Publisher.Repository.Steps.{
  Follows, Follows-refl, Replaced-Follows, Command-Follows, transact_rule,
}

module _ {Value Zone : Type 0} (env : Environment Value Zone) where
  pub command_row-Command :
      (moment : Moment) (c : PostCommand) (posts : List (PostRow Value))
      → Distinct post_id_of posts
      → From posts (command_row env moment c) (Command (target c) (Revised (expected c)) posts)
  unfolding command_row
  command_row-Command moment (update_post id update) posts d =
      update_checked-Command env moment id update posts d
  command_row-Command moment (schedule_post schedule) posts d =
      schedule_row-Command env moment schedule posts d
  command_row-Command moment (schedule_post_exact schedule) posts d =
      exact_row-Command env moment schedule posts d
  command_row-Command moment (decide_post id decision request_key expected_revision) posts d =
      decide_row-Command env moment id decision request_key expected_revision posts d
  command_row-Command moment (publish_now id request_key expected_revision) posts d =
      publish_now_row-Command env moment id request_key expected_revision posts d
  command_row-Command moment (cancel_post id expected_revision) posts d =
      cancel_row-Command env moment id expected_revision posts d

  pub command-Follows :
      (moment : Moment) (c : PostCommand) (db : Store Value)
      → Distinct post_id_of db.posts
      → Follows db.posts (command env moment c db).1.posts
  unfolding command
  command-Follows moment c db d =
      transact_rule _ (Follows db.posts) _ db (command_row-Command moment c db.posts d)
        (Follows-refl db.posts)
        λ row posts' done. Command-Follows (target c) _ db.posts posts' row d done

  pub end_send-Follows :
      (moment : Moment) (id : ℕ) (lease : PublishLease) (e : SendEnd) (db : Store Value)
      → Distinct post_id_of db.posts
      → Follows db.posts (end_send env moment id lease e db).posts
  unfolding end_send complete_publish_post fail_publish_post retry_publish_post
  end_send-Follows moment id lease (complete_publish m) db d =
      transact_rule _ (Follows db.posts) _ db
        (complete_row-Command env moment id lease m db.posts d) (Follows-refl db.posts)
        λ done posts' h. Command-Follows id (Sent lease) db.posts posts' done.0 d h
  end_send-Follows moment id lease (fail_publish state class message) db d =
      transact_rule _ (Follows db.posts) _ db
        (fail_row-Command env moment id lease state class message db.posts d)
        (Follows-refl db.posts)
        λ row posts' h. Command-Follows id (Sent lease) db.posts posts' row d h
  end_send-Follows moment id lease (retry_publish class message) db d =
      transact_rule _ (Follows db.posts) _ db
        (retry_row-Command env moment id lease class message db.posts d) (Follows-refl db.posts)
        λ done posts' h. Command-Follows id (Sent lease) db.posts posts' done.0 d h

  pub Interrupted-Follows :
      (moment : Moment) (id : ℕ) (posts posts' : List (PostRow Value)) (b : Bool)
      → Distinct post_id_of posts
      → Interrupted env moment id posts b posts'
      → Follows posts posts'
  Interrupted-Follows moment id posts posts' true d (row, r) =
      Replaced-Follows id _ posts posts' row d r
  Interrupted-Follows moment id posts posts' false d same =
      subst (λ (x : List (PostRow Value)). Follows posts x) (sym same) (Follows-refl posts)
