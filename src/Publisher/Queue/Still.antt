-- ===== src/Publisher/Queue/Still.antt =====
-- The statements on the queue leave the posts as they are.
use sooqa.Prelude.{ℕ, String, Bool, Bool-cases, inl, inr, none, some, Option-cases}
use sooqa.Prelude.Tables.{update_where, exists_where}
use sooqa.Jobs.Rows.{JobRow, JobLease}
use sooqa.Jobs.Table.{same_id, same_key}
use sooqa.Publisher.Store.{Environment, Moment}
use sooqa.Publisher.Store.Runs.{Ends, From, Still}
use sooqa.Publisher.Store.Still.{>>=-Still, refused-Still, pure-Still, gets-Still, or_fail-Still}
use sooqa.Publisher.Posts.{publish_lease_lost}
use sooqa.Publisher.Queue.{
  dedupe_key_of, insert_publish_job_row, update_jobs, lock_publish_job, move_publish_job,
  update_publish_job, insert_publish_job, update_failed_publish_job, cancel_publish_job,
  lock_current_job_attempt,
}

module _ {Value : Type 0} where
  pub update_jobs-Still :
      (id : ℕ) (p : JobRow Value → Bool) (f : JobRow Value → JobRow Value)
      → Still (update_jobs id p f)
  unfolding update_jobs Still From Ends
  update_jobs-Still id p f posts db e = elim (Option-cases (update_where p f db.jobs).0) [
    | inl lost ↦ rw (lost, update_jobs, Ends) tt
    | inr (row, found) ↦ rw (found, update_jobs, Ends) e
  ]

module _ {Value Zone : Type 0} (env : Environment Value Zone) (moment : Moment) where
  pub insert_publish_job_row-Still :
      (id run_at revision : ℕ) (state : String)
      → Still (insert_publish_job_row env moment id run_at revision state)
  unfolding insert_publish_job_row Still From Ends
  insert_publish_job_row-Still id run_at revision state posts db e =
      elim (Bool-cases (exists_where (same_key (some (dedupe_key_of env moment id))) db.jobs)) [
        | inl taken ↦ rw (taken, insert_publish_job_row, Ends) tt
        | inr free ↦ elim (Bool-cases (exists_where (same_id moment.fresh) db.jobs)) [
          | inl taken ↦ rw (free, taken, insert_publish_job_row, Ends) tt
          | inr new ↦ rw (free, new, insert_publish_job_row, Ends) e
        ]
      ]

  pub lock_publish_job-Still : (id : ℕ) → Still (lock_publish_job env moment id)
  unfolding lock_publish_job
  lock_publish_job-Still id = gets-Still _

  pub move_publish_job-Still :
      (id run_at revision : ℕ) (row : JobRow Value)
      → Still (move_publish_job env moment id run_at revision row)
  unfolding move_publish_job
  move_publish_job-Still id run_at revision row =
      refused-Still _ _ _ (refused-Still _ _ _ (update_jobs-Still id _ _))

  pub update_publish_job-Still :
      (id run_at revision : ℕ) → Still (update_publish_job env moment id run_at revision)
  unfolding update_publish_job
  update_publish_job-Still id run_at revision = >>=-Still _ _ (lock_publish_job-Still id) elim [
    | none ↦ insert_publish_job_row-Still id run_at revision "queued"
    | some row ↦ move_publish_job-Still id run_at revision row
  ]

  pub insert_publish_job-Still :
      (id run_at revision : ℕ) → Still (insert_publish_job env moment id run_at revision)
  unfolding insert_publish_job
  insert_publish_job-Still id run_at revision = >>=-Still _ _ (lock_publish_job-Still id) elim [
    | none ↦ insert_publish_job_row-Still id run_at revision "queued"
    | some row ↦ refused-Still _ _ _ (update_publish_job-Still id run_at revision)
  ]

  pub update_failed_publish_job-Still :
      (id run_at revision : ℕ) → Still (update_failed_publish_job env moment id run_at revision)
  unfolding update_failed_publish_job
  update_failed_publish_job-Still id run_at revision =
      >>=-Still _ _ (lock_publish_job-Still id) elim [
        | none ↦ insert_publish_job_row-Still id run_at revision "failed"
        | some row ↦ refused-Still _ _ _ (update_jobs-Still id _ _)
      ]

  pub cancel_publish_job-Still : (id : ℕ) → Still (cancel_publish_job env moment id)
  unfolding cancel_publish_job
  cancel_publish_job-Still id = >>=-Still _ _ (lock_publish_job-Still id) elim [
    | none ↦ pure-Still Value tt
    | some row ↦ refused-Still _ _ _ (refused-Still _ _ _ (update_jobs-Still id _ _))
  ]

  pub lock_current_job_attempt-Still :
      (id : ℕ) (attempt : JobLease) → Still (lock_current_job_attempt env moment id attempt)
  unfolding lock_current_job_attempt
  lock_current_job_attempt-Still id attempt =
      >>=-Still _ _ (gets-Still _) λ found. or_fail-Still Value found (publish_lease_lost id)
