-- ===== src/Publisher/Repository.antt =====
-- The operations of `PublisherRepository` on posts, as their callers see them: a command that waits, a step
-- of a send, and a new post, each in a transaction of its own. `command` and `end_send` gather several of them, to
-- speak of all at once.
pub mod Steps
pub mod Changes
pub mod Creations
pub mod Settlements
mod Tests
pub mod History
pub mod Conflicts
use sooqa.Prelude.{ℕ, String, Bool, Result, ok, err, List}
use sooqa.Prelude.Int.{ℤ}
use sooqa.Jobs.Rows.{JobLease}
use sooqa.Publisher.Intent.{PublicationDecision}
use sooqa.Publisher.Posts.{PostRow, Post, PostState, PublisherRepositoryError, into_post}
use sooqa.Publisher.Store.{Environment, Moment, Store, Tx, transact, row_read}
use sooqa.Publisher.Hashes.{PostUpdate, PostSchedule, PostExactSchedule}
use sooqa.Publisher.Commands.Edits.{update_checked, cancel_row}
use sooqa.Publisher.Commands.Schedules.{schedule_row, exact_row, publish_now_row}
use sooqa.Publisher.Commands.Decisions.{decide_row}
use sooqa.Publisher.Creation.{NewPost, create_row}
use sooqa.Publisher.Commands.Sending.{
  PublishLease, claim_row, complete_row, fail_row, retry_row, reconcile_row,
}

-- `PublishClaim` and `PublishedMessage`
pub record PublishClaim : Type 0 where
  pub post : Post
  pub channel_chat_id : ℤ

pub record PublishRetry : Type 0 where
  pub post : Post
  pub terminal : Bool

-- The commands that name the revision that they expect.
pub data PostCommand : Type 0 where
  update_post : ℕ → PostUpdate → PostCommand
  schedule_post : PostSchedule → PostCommand
  schedule_post_exact : PostExactSchedule → PostCommand
  decide_post : ℕ → PublicationDecision → List ℕ → ℤ → PostCommand
  publish_now : ℕ → List ℕ → ℤ → PostCommand
  cancel_post : ℕ → ℤ → PostCommand

abbrev pub target : PostCommand → ℕ
target (update_post id update) = id
target (schedule_post schedule) = schedule.post_id
target (schedule_post_exact schedule) = schedule.post_id
target (decide_post id decision request_key expected_revision) = id
target (publish_now id request_key expected_revision) = id
target (cancel_post id expected_revision) = id

abbrev pub expected : PostCommand → ℤ
expected (update_post id update) = update.expected_revision
expected (schedule_post schedule) = schedule.expected_revision
expected (schedule_post_exact schedule) = schedule.expected_revision
expected (decide_post id decision request_key expected_revision) = expected_revision
expected (publish_now id request_key expected_revision) = expected_revision
expected (cancel_post id expected_revision) = expected_revision

-- The steps that end a send, with the lease that they hold.
pub data SendEnd : Type 0 where
  complete_publish : ℤ → SendEnd
  fail_publish : PostState → String → String → SendEnd
  retry_publish : String → String → SendEnd

module _ {Value Zone : Type 0} (env : Environment Value Zone) (moment : Moment) where
  unfoldable pub command_row : PostCommand → Tx Value (PostRow Value)
  command_row (update_post id update) = update_checked env moment id update
  command_row (schedule_post schedule) = schedule_row env moment schedule
  command_row (schedule_post_exact schedule) = exact_row env moment schedule
  command_row (decide_post id decision request_key expected_revision) =
      decide_row env moment id decision request_key expected_revision
  command_row (publish_now id request_key expected_revision) =
      publish_now_row env moment id request_key expected_revision
  command_row (cancel_post id expected_revision) = cancel_row env moment id expected_revision

  unfoldable pub command :
      PostCommand → Store Value → Result PublisherRepositoryError Post × Store Value
  command c db =
      let done = transact (command_row c) db in (row_read env.evidence_from_value done.0, done.1)

  -- The post of a row that comes with a second result.
  abbrev pub read_with :
      {A B : Type 0}
      → (Post → A → B)
      → Result PublisherRepositoryError (PostRow Value × A)
      → Result PublisherRepositoryError B
  read_with make (err e) = err e
  read_with make (ok (row, a)) = elim (into_post env.evidence_from_value row) [
    | err e ↦ err e
    | ok post ↦ ok (make post a)
  ]

  abbrev pub claim_of : Post → ℤ → PublishClaim
  claim_of post chat_id = record { post = post; channel_chat_id = chat_id }

  unfoldable pub claim_publish :
      ℕ → ℤ → JobLease → Store Value → Result PublisherRepositoryError PublishClaim × Store Value
  claim_publish id expected_revision attempt db =
      let done = transact (claim_row env moment id expected_revision attempt) db in
      (read_with claim_of done.0, done.1)

  unfoldable pub complete_publish_post :
      ℕ
      → PublishLease
      → ℤ
      → Store Value
      → Result PublisherRepositoryError PublishClaim × Store Value
  complete_publish_post id lease telegram_message_id db =
      let done = transact (complete_row env moment id lease telegram_message_id) db in
      (read_with claim_of done.0, done.1)

  unfoldable pub fail_publish_post :
      ℕ
      → PublishLease
      → PostState
      → String
      → String
      → Store Value
      → Result PublisherRepositoryError Post × Store Value
  fail_publish_post id lease state class message db =
      let done = transact (fail_row env moment id lease state class message) db in
      (row_read env.evidence_from_value done.0, done.1)

  unfoldable pub retry_publish_post :
      ℕ
      → PublishLease
      → String
      → String
      → Store Value
      → Result PublisherRepositoryError PublishRetry × Store Value
  retry_publish_post id lease class message db =
      let done = transact (retry_row env moment id lease class message) db in
      (read_with (λ post terminal. record { post = post; terminal = terminal }) done.0, done.1)

  unfoldable pub reconcile_interrupted_publish :
      ℕ → JobLease → Store Value → Result PublisherRepositoryError Bool × Store Value
  reconcile_interrupted_publish id attempt db = transact (reconcile_row env moment id attempt) db

  unfoldable pub create_post_idempotent :
      NewPost
      → List ℕ
      → List ℕ
      → Store Value
      → Result PublisherRepositoryError (Post × Bool) × Store Value
  create_post_idempotent post request_key request_hash db =
      let done = transact (create_row moment post request_key request_hash) db in
      (read_with (λ p created. (p, created)) done.0, done.1)

  -- What a step that ends a send leaves.
  unfoldable pub end_send : ℕ → PublishLease → SendEnd → Store Value → Store Value
  end_send id lease (complete_publish telegram_message_id) db =
      (complete_publish_post id lease telegram_message_id db).1
  end_send id lease (fail_publish state class message) db =
      (fail_publish_post id lease state class message db).1
  end_send id lease (retry_publish class message) db =
      (retry_publish_post id lease class message db).1
