-- ===== src/Jobs/Queue.antt =====
-- The operations of `JobRepository`. Each takes the statement's `now()` and the table, and returns its
-- result with the table after it.
pub mod Rows
pub mod Invariant
pub mod Claim
pub mod Lost
pub mod Completion
use sooqa.Prelude.{
  ℕ, zero, suc, ◌+◌, ◌≤◌, ◌<◌, ◌≡◌, String, Bool, true, false, ◌&&◌, ◌||◌, not, ltb, leb, ◌==◌,
  if◌then◌else◌, List, [], ◌∷◌, ◌++◌, Option, none, some, Result, ok, err, ◌>>=◌, fail_if, ◌>>◌,
}
use sooqa.Prelude.Tables.{count_where}
use sooqa.Prelude.Strings.{str_eq, opt_nat_eq, opt_str_eq}
use sooqa.Prelude.Int.{ℤ, pos, pos_part, ltb_ℤ, leb_ℤ}
use sooqa.Jobs.Kinds.{JobType, job_type_as_str}
use sooqa.Jobs.Commands.{NewJob, Serde, job_type, payload_json}
use sooqa.Jobs.Rows.{
  JobRow, Job, JobLease, JobRepositoryError, invalid_max_attempts, invalid_lease_duration,
  lease_lost, database, into_job,
}
use sooqa.Jobs.Table.{
  Table, update_where, select_where, exists_where, claim_rows, held_by, extend, succeed,
  already_succeeded, same_id, same_key,
}

-- The result of an operation, with the table that it leaves.
abbrev pub Outcome : Type 0 → Type 0 → Type 0
Outcome Value A = Result JobRepositoryError A × List (JobRow Value)

-- A lease of no time is refused.
unfoldable pub lease_seconds : ℕ → Result JobRepositoryError ℕ
lease_seconds duration = if duration == 0 then err invalid_lease_duration else ok duration

module _ {Value Inspection : Type 0} (serde : Serde Value Inspection) where
  abbrev pub inserted : ℕ → ℕ → NewJob Inspection → JobRow Value
  inserted now fresh job = record {
    id = fresh;
    kind = job_type_as_str (job_type job.command);
    payload = payload_json serde job.command;
    state = "queued";
    priority = job.priority;
    run_at = elim job.run_at [ none ↦ now | some t ↦ t ];
    attempt_count = 0;
    max_attempts = pos_part job.max_attempts;
    lease_token = none;
    lease_owner = none;
    lease_expires_at = none;
    last_heartbeat_at = none;
    error_class = none;
    error_message = none;
    dedupe_key = job.dedupe_key;
    created_at = now;
    updated_at = now;
    completed_at = none;
  }

  -- `fresh` is the id that the table's default gives.
  unfoldable pub enqueue : ℕ → ℕ → NewJob Inspection → Table Value → Outcome Value (Job Inspection)
  enqueue now fresh job rows =
      if leb_ℤ job.max_attempts (pos 0)
      then (err invalid_max_attempts, rows)
      else if exists_where (same_id fresh) rows || exists_where (same_key job.dedupe_key) rows
      then (err database, rows)
      else (into_job serde (inserted now fresh job), rows ++ inserted now fresh job ∷ [])

  -- `row.map(JobRow::into_job).transpose()`
  abbrev pub optional_job :
      Option (JobRow Value) → Result JobRepositoryError (Option (Job Inspection))
  optional_job none = ok none
  optional_job (some row) = into_job serde row >>= λ job. ok (some job)

  -- The row is committed before it is decoded.
  unfoldable pub claim_next :
      ℕ → ℕ → String → ℕ → List JobType → Table Value → Outcome Value (Option (Job Inspection))
  claim_next now fresh worker duration capabilities rows = elim (lease_seconds duration) [
    | err e ↦ (err e, rows)
    | ok seconds ↦
        let claimed = claim_rows now fresh worker seconds capabilities rows in
        (optional_job claimed.0, claimed.1)
  ]

  -- `.ok_or(LeaseLost)?.into_job()`
  abbrev pub job_or_lost : Option (JobRow Value) → Result JobRepositoryError (Job Inspection)
  job_or_lost none = err lease_lost
  job_or_lost (some row) = into_job serde row

  unfoldable pub heartbeat_lease : ℕ → JobLease → ℕ → Table Value → Outcome Value (Job Inspection)
  heartbeat_lease now l duration rows = elim (lease_seconds duration) [
    | err e ↦ (err e, rows)
    | ok seconds ↦
        let updated = update_where (held_by now l) (extend now seconds) rows in
        (job_or_lost updated.0, updated.1)
  ]

  unfoldable pub complete_lease : ℕ → JobLease → Table Value → Outcome Value (Job Inspection)
  complete_lease now l rows =
      let updated = update_where (held_by now l) (succeed now) rows in
      elim updated.0 [
        | some row ↦ (into_job serde row, updated.1)
        | none ↦ (job_or_lost (select_where (already_succeeded l) rows), rows)
      ]

-- The two counts of `count_technical_jobs`; `count(*)` is not negative.
pub record JobCounts : Type 0 where
  pub queued : ℕ
  pub running : ℕ

abbrev pub is_technical : String → Bool
is_technical kind = not (str_eq kind "publish_post" || str_eq kind "materialize_publication")

unfoldable pub count_technical_jobs : {Value : Type 0} → Table Value → JobCounts
count_technical_jobs rows = record {
  queued = count_where (λ row. is_technical row.kind && str_eq row.state "queued") rows;
  running = count_where (λ row. is_technical row.kind && str_eq row.state "running") rows;
}
