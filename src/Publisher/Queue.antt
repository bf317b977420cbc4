-- ===== src/Publisher/Queue.antt =====
-- The publication job of a post: how the repository's transactions make it, move it and cancel it, and
-- check the attempt that runs it.
pub mod Still
use sooqa.Prelude.{
  ℕ, String, Bool, ◌&&◌, ◌||◌, not, ◌==◌, if◌then◌else◌, [], ◌∷◌, ◌++◌, Option, none, some, ok, err,
}
use sooqa.Prelude.Strings.{str_eq, opt_nat_eq, opt_str_eq}
use sooqa.Prelude.Int.{pos}
use sooqa.Prelude.Tables.{update_where, select_where, exists_where}
use sooqa.Jobs.Rows.{JobRow, JobLease}
use sooqa.Jobs.Table.{expires_after, same_id, same_key}
use sooqa.Publisher.Posts.{
  publish_job_running, publish_job_unavailable, publish_job_update_lost, publish_lease_lost,
  database,
}
use sooqa.Publisher.Store.{Environment, Moment, Tx, ◌>>=◌, ◌>>◌, pure, gets, or_fail, refuse_if}
use Prim.Native.String.{◌++◌ as append}

module _ {Value : Type 0} where
  -- `UPDATE queue.jobs … WHERE …`, with the check that it affected one row.
  unfoldable pub update_jobs :
      ℕ → (JobRow Value → Bool) → (JobRow Value → JobRow Value) → Tx Value (Unit {0})
  update_jobs post_id p f db =
      let updated = update_where p f db.jobs in
      elim updated.0 [
        | none ↦ err (publish_job_update_lost post_id)
        | some row ↦ ok (tt, record db { jobs = updated.1 })
      ]

abbrev pub waits_or_failed : String → Bool
waits_or_failed state = str_eq state "queued" || str_eq state "failed"

module _ {Value Zone : Type 0} (env : Environment Value Zone) (moment : Moment) where
  -- `post:{post_id}:publish:v1`
  abbrev pub dedupe_key_of : ℕ → String
  dedupe_key_of post_id = append (append "post:" (env.uuid_text post_id)) ":publish:v1"

  unfoldable pub lock_publish_job : ℕ → Tx Value (Option (JobRow Value))
  lock_publish_job post_id =
      gets λ db. select_where (λ row. opt_str_eq row.dedupe_key (dedupe_key_of post_id)) db.jobs

  abbrev pub publish_job_row : ℕ → ℕ → ℕ → String → JobRow Value
  publish_job_row post_id run_at expected_revision state = record {
    id = moment.fresh;
    kind = "publish_post";
    payload = env.publish_payload post_id expected_revision;
    state = state;
    priority = pos 0;
    run_at = run_at;
    attempt_count = 0;
    max_attempts = 5;
    lease_token = none;
    lease_owner = none;
    lease_expires_at = none;
    last_heartbeat_at = none;
    error_class = none;
    error_message = none;
    dedupe_key = some (dedupe_key_of post_id);
    created_at = moment.now;
    updated_at = moment.now;
    completed_at = if str_eq state "failed" then some moment.now else none;
  }

  unfoldable pub insert_publish_job_row : ℕ → ℕ → ℕ → String → Tx Value (Unit {0})
  insert_publish_job_row post_id run_at expected_revision state db =
      let row = publish_job_row post_id run_at expected_revision state in
      if exists_where (same_key row.dedupe_key) db.jobs
      then err (publish_job_update_lost post_id)
      else if exists_where (same_id row.id) db.jobs
      then err database
      else ok (tt, record db { jobs = db.jobs ++ row ∷ [] })

  abbrev pub requeued_job : ℕ → ℕ → ℕ → JobRow Value → JobRow Value
  requeued_job post_id run_at expected_revision row = record row {
    payload = env.publish_payload post_id expected_revision;
    run_at = run_at;
    state = "queued";
    attempt_count = if str_eq row.state "failed" then 0 else row.attempt_count;
    error_class = none;
    error_message = none;
    completed_at = none;
    updated_at = moment.now;
  }

  unfoldable pub move_publish_job : ℕ → ℕ → ℕ → JobRow Value → Tx Value (Unit {0})
  move_publish_job post_id run_at expected_revision row = do
    refuse_if (str_eq row.state "running") (publish_job_running post_id)
    refuse_if (not (waits_or_failed row.state)) (publish_job_unavailable post_id row.state)
    update_jobs post_id (λ r. r.id == row.id && waits_or_failed r.state)
        (requeued_job post_id run_at expected_revision)

  unfoldable pub update_publish_job : ℕ → ℕ → ℕ → Tx Value (Unit {0})
  update_publish_job post_id run_at expected_revision = do
    found ← lock_publish_job post_id
    elim found [
      | none ↦ insert_publish_job_row post_id run_at expected_revision "queued"
      | some row ↦ move_publish_job post_id run_at expected_revision row
    ]

  unfoldable pub insert_publish_job : ℕ → ℕ → ℕ → Tx Value (Unit {0})
  insert_publish_job post_id run_at expected_revision = do
    found ← lock_publish_job post_id
    elim found [
      | none ↦ insert_publish_job_row post_id run_at expected_revision "queued"
      | some row ↦ do
        refuse_if (str_eq row.state "running") (publish_job_running post_id)
        update_publish_job post_id run_at expected_revision
    ]

  abbrev pub with_payload : ℕ → ℕ → JobRow Value → JobRow Value
  with_payload post_id expected_revision row = record row {
    payload = env.publish_payload post_id expected_revision;
    updated_at = moment.now;
  }

  unfoldable pub update_failed_publish_job : ℕ → ℕ → ℕ → Tx Value (Unit {0})
  update_failed_publish_job post_id run_at expected_revision = do
    found ← lock_publish_job post_id
    elim found [
      | none ↦ insert_publish_job_row post_id run_at expected_revision "failed"
      | some row ↦ do
        refuse_if (not (str_eq row.state "failed")) (publish_job_unavailable post_id row.state)
        update_jobs post_id (λ r. r.id == row.id && str_eq r.state "failed")
            (with_payload post_id expected_revision)
    ]

  abbrev pub cancelled_job : JobRow Value → JobRow Value
  cancelled_job row = record row {
    state = "cancelled";
    lease_token = none;
    lease_owner = none;
    lease_expires_at = none;
    last_heartbeat_at = none;
    completed_at = some moment.now;
    updated_at = moment.now;
  }

  unfoldable pub cancel_publish_job : ℕ → Tx Value (Unit {0})
  cancel_publish_job post_id = do
    found ← lock_publish_job post_id
    elim found [
      | none ↦ pure tt
      | some row ↦ do
        refuse_if (str_eq row.state "running") (publish_job_running post_id)
        refuse_if (not (waits_or_failed row.state)) (publish_job_unavailable post_id row.state)
        update_jobs post_id (λ r. r.id == row.id && waits_or_failed r.state) cancelled_job
    ]

  abbrev pub is_current_attempt : ℕ → JobLease → JobRow Value → Bool
  is_current_attempt post_id attempt row =
      row.id == attempt.job_id
      && str_eq row.kind "publish_post"
      && opt_str_eq (env.payload_post_id row.payload) (env.uuid_text post_id)
      && str_eq row.state "running"
      && row.attempt_count == attempt.attempt_number
      && opt_str_eq row.lease_owner attempt.lease_owner
      && opt_nat_eq row.lease_token attempt.lease_token
      && expires_after row moment.clock

  unfoldable pub lock_current_job_attempt : ℕ → JobLease → Tx Value (JobRow Value)
  lock_current_job_attempt post_id attempt = do
    found ← gets λ db. select_where (is_current_attempt post_id attempt) db.jobs
    or_fail found (publish_lease_lost post_id)
