-- ===== src/Publisher/Settlement.antt =====
-- The settlement of a publication's job with its post, and of the job that materializes an ingest:
-- `settle_publish_job`, `recover_publish_job`, `settle_materialize_job` and `recover_materialize_job` of
-- crates/persistence/src/publisher.rs. Their statements on jobs are those of settlement.rs.
pub mod Quiet
pub mod Joint
pub mod Refinement
pub mod Recovery
mod Tests
use sooqa.Prelude.{
  ℕ, String, Bool, true, false, ◌&&◌, leb, ◌==◌, if◌then◌else◌, List, Option, none, some, Result,
  ok, err, ok_or, ◌>>=◌,
}
use sooqa.Prelude.Strings.{str_eq}
use sooqa.Prelude.Int.{ℤ, pos, int_eq}
use sooqa.Prelude.Tables.{select_where}
use sooqa.Jobs.Commands.{
  JobCommand, Serde, PublishPostPayload, publish_post, materialize_publication,
}
use sooqa.Jobs.Rows.{
  JobRow, Job, JobLease, JobSettlement, JobRepositoryError, lease_lost, database, into_job,
  allows_expired_lease,
}
use sooqa.Jobs.Table.{Table}
use sooqa.Jobs.Queue.{Outcome}
use sooqa.Jobs.Settlement.{
  QueueUpdate, queue_parameters, expired_update, lock_running_job, lock_expired_job,
  update_locked_job, validate_locked_command, settle_queue_in_transaction,
  recover_queue_only_in_transaction, unwrap_text,
}
use sooqa.Publisher.Posts.{PostRow}
use sooqa.Publisher.Store.{Environment, Moment, Store, Tx, pure, post_is, update_posts}
use sooqa.Publisher.Commands.Sending.{ended_send, is_interrupted}

pub record PublicationJobPostRow : Type 0 where
  pub state : String
  pub revision : ℕ

abbrev pub publication_of :
    {Inspection : Type 0} → JobCommand Inspection → Option PublishPostPayload
publication_of (publish_post payload) = some payload
publication_of _ = none

abbrev pub is_materialization : {Inspection : Type 0} → JobCommand Inspection → Bool
is_materialization (materialize_publication payload) = true
is_materialization _ = false

module _ {Value : Type 0} where
  unfoldable pub lock_publication_post : ℕ → List (PostRow Value) → Option PublicationJobPostRow
  lock_publication_post post_id posts = elim (select_where (post_is post_id) posts) [
    | none ↦ none
    | some row ↦ some (record { state = row.state; revision = row.revision })
  ]

  -- `id = $1 AND state = 'queued' AND revision = $4`
  abbrev pub is_queued_at : ℕ → ℕ → PostRow Value → Bool
  is_queued_at id revision row =
      row.id == id && str_eq row.state "queued" && row.revision == revision

  -- `execute`, whose number of rows is not read.
  abbrev pub execute :
      (PostRow Value → Bool) → (PostRow Value → PostRow Value) → Tx Value (Unit {0})
  execute p f db = elim (update_posts p f db) [ err e ↦ err e | ok (_, db') ↦ ok (tt, db') ]

  -- The errors of statements on posts are the database's.
  abbrev pub on_posts : Tx Value (Unit {0}) → Store Value → Result JobRepositoryError (Store Value)
  on_posts m db = elim (m db) [ err e ↦ err database | ok (_, db') ↦ ok db' ]

  -- A statement on jobs, in the store.
  abbrev pub on_jobs :
      {A : Type 0}
      → (Table Value → Outcome Value A)
      → Store Value
      → Result JobRepositoryError (A × Store Value)
  on_jobs op db =
      let done = op db.jobs in
      elim done.0 [ err e ↦ err e | ok a ↦ ok (a, record db { jobs = done.1 }) ]

  -- The result of a transaction, and the store after it.
  abbrev pub job_committed :
      {A : Type 0}
      → Store Value
      → Result JobRepositoryError (A × Store Value)
      → Result JobRepositoryError A × Store Value
  job_committed db (ok (a, db')) = (ok a, db')
  job_committed db (err e) = (err e, db)

module _ {Value Zone : Type 0} (env : Environment Value Zone) (moment : Moment) where
  unfoldable pub settle_terminal_publication_post :
      ℕ → PublicationJobPostRow → ℤ → String → String → Tx Value (Unit {0})
  settle_terminal_publication_post post_id post expected_revision class message =
      if str_eq post.state "queued" && int_eq expected_revision (pos post.revision)
      then execute (is_queued_at post_id post.revision)
          (ended_send env moment "failed" class message)
      else if str_eq post.state "sending"
      then execute (is_interrupted env moment post_id)
          (ended_send env moment "unknown" class message)
      else pure tt

  -- Only a terminal update touches the post, and only where there is one.
  unfoldable pub settle_post :
      Bool
      → Option PublicationJobPostRow
      → PublishPostPayload
      → String
      → String
      → Tx Value (Unit {0})
  settle_post true (some post) payload class message =
      settle_terminal_publication_post payload.post_id post payload.expected_revision class message
  settle_post _ _ payload class message = pure tt

  -- The class and the message that the post of an expired lease gets.
  abbrev pub expired_class : Option PublicationJobPostRow → JobRow Value → String
  expired_class none job = unwrap_text job.error_class "lease_expired"
  expired_class (some post) job =
      if str_eq post.state "sending"
      then "publication_interrupted"
      else unwrap_text job.error_class "lease_expired"

  abbrev pub expired_message : Option PublicationJobPostRow → JobRow Value → String
  expired_message none job = unwrap_text job.error_message "job lease expired"
  expired_message (some post) job =
      if str_eq post.state "sending"
      then "publication job lease expired after the final attempt"
      else unwrap_text job.error_message "job lease expired"

  -- The post's settlement, and then the job's.
  unfoldable pub settle_both :
      QueueUpdate
      → Option PublicationJobPostRow
      → PublishPostPayload
      → String
      → String
      → ℕ
      → Store Value
      → Result JobRepositoryError (JobRow Value × Store Value)
  settle_both update post payload class message job_id db = do
    db' ← on_posts (settle_post update.terminal post payload class message) db
    on_jobs (update_locked_job moment.now job_id update) db'

  module _ {Inspection : Type 0} (serde : Serde Value Inspection) where
    unfoldable pub settle_publish_row :
        JobLease
        → JobCommand Inspection
        → JobSettlement
        → Store Value
        → Result JobRepositoryError (JobRow Value × Store Value)
    settle_publish_row lease expected settlement db = do
      named ← ok_or (publication_of expected) lease_lost
      job ← lock_running_job moment.clock lease (allows_expired_lease settlement) db.jobs
      command ← validate_locked_command serde job expected
      payload ← ok_or (publication_of command) lease_lost
      let update : QueueUpdate = queue_parameters job settlement
      settle_both update (lock_publication_post named.post_id db.posts) payload update.error_class
          update.error_message job.id db

    unfoldable pub settle_publish_job :
        JobLease
        → JobCommand Inspection
        → JobSettlement
        → Store Value
        → Result JobRepositoryError (Job Inspection) × Store Value
    settle_publish_job lease expected settlement db =
        let done = job_committed db (settle_publish_row lease expected settlement db) in
        (done.0 >>= λ row. into_job serde row, done.1)

    -- The rest of a recovery, once the expired job is locked.
    unfoldable pub recover_expired :
        ℕ
        → JobCommand Inspection
        → JobRow Value
        → Store Value
        → Result JobRepositoryError (Bool × Store Value)
    recover_expired post_id expected job db = do
      command ← validate_locked_command serde job expected
      payload ← ok_or (publication_of command) lease_lost
      let post = lock_publication_post post_id db.posts
      done ←
          settle_both (expired_update moment.local job) post payload (expired_class post job)
            (expired_message post job) job.id db
      ok (true, done.1)

    unfoldable pub recover_publish_row :
        ℕ → JobCommand Inspection → Store Value → Result JobRepositoryError (Bool × Store Value)
    recover_publish_row job_id expected db = do
      named ← ok_or (publication_of expected) lease_lost
      elim (lock_expired_job moment.clock job_id db.jobs) [
        | none ↦ ok (false, db)
        | some job ↦ recover_expired named.post_id expected job db
      ]

    unfoldable pub recover_publish_job :
        ℕ → JobCommand Inspection → Store Value → Result JobRepositoryError Bool × Store Value
    recover_publish_job job_id expected db =
        job_committed db (recover_publish_row job_id expected db)

    -- The lock of the ingest reads alone.
    unfoldable pub settle_materialize_job :
        JobLease
        → JobCommand Inspection
        → JobSettlement
        → Store Value
        → Result JobRepositoryError (Job Inspection) × Store Value
    settle_materialize_job lease expected settlement db =
        let done =
          settle_queue_in_transaction serde moment.now moment.clock lease expected settlement
            db.jobs in
        if is_materialization expected
        then (done.0 >>= λ row. into_job serde row, record db { jobs = done.1 })
        else (err lease_lost, db)

    unfoldable pub recover_materialize_job :
        ℕ → JobCommand Inspection → Store Value → Result JobRepositoryError Bool × Store Value
    recover_materialize_job job_id expected db =
        let done =
          recover_queue_only_in_transaction serde moment.now moment.clock moment.local job_id
            expected db.jobs in
        if is_materialization expected
        then (
          done.0 >>= λ row. ok (elim row [ none ↦ false | some _ ↦ true ]),
          record db { jobs = done.1 },
        )
        else (err lease_lost, db)
