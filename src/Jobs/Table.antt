-- ===== src/Jobs/Table.antt =====
-- The table of jobs, a list of rows with distinct ids, and the statements that jobs.rs runs on it.
pub mod Rewrites
pub mod Found
pub mod Order
use sooqa.Prelude.{
  ℕ, zero, suc, ◌+◌, ◌≤◌, ◌<◌, ◌≡◌, String, Bool, true, false, ◌&&◌, ◌||◌, not, ltb, leb, ◌==◌,
  if◌then◌else◌, List, [], ◌∷◌, ◌++◌, Option, none, some, Result, ok, err, ◌>>=◌, fail_if, ◌>>◌,
}
unfoldable pub use sooqa.Prelude.Tables.{update_where, select_where, exists_where}
use sooqa.Prelude.Strings.{str_eq, opt_nat_eq, opt_str_eq}
use sooqa.Prelude.Int.{ℤ, pos, pos_part, ltb_ℤ, leb_ℤ}
use sooqa.Jobs.Kinds.{JobType, job_type_as_str}
use sooqa.Jobs.Commands.{NewJob, Serde, job_type, payload_json}
use sooqa.Jobs.Rows.{
  JobRow, Job, JobLease, JobRepositoryError, invalid_max_attempts, invalid_lease_duration,
  lease_lost, database, into_job,
}

abbrev pub Table : Type 0 → Type 0
Table Value = List (JobRow Value)

abbrev pub has_capability : List JobType → String → Bool
has_capability [] kind = false
has_capability (t ∷ capabilities) kind =
    str_eq (job_type_as_str t) kind || has_capability capabilities kind

module _ {Value : Type 0} where
  -- `lease_expires_at > $1`, which does not hold of NULL.
  abbrev pub expires_after : JobRow Value → ℕ → Bool
  expires_after row now = elim row.lease_expires_at [ none ↦ false | some t ↦ ltb now t ]

  -- `ORDER BY priority DESC, run_at ASC, created_at ASC, id ASC`
  abbrev pub claimed_before : JobRow Value → JobRow Value → Bool
  claimed_before a b =
      ltb_ℤ b.priority a.priority
      || (leb_ℤ b.priority a.priority
          && leb_ℤ a.priority b.priority
          && (ltb a.run_at b.run_at
              || (a.run_at == b.run_at
                  && (ltb a.created_at b.created_at
                      || (a.created_at == b.created_at && ltb a.id b.id)))))

  abbrev pub claimable : ℕ → List JobType → JobRow Value → Bool
  claimable now capabilities row =
      str_eq row.state "queued"
      && leb row.run_at now
      && ltb row.attempt_count row.max_attempts
      && has_capability capabilities row.kind

  abbrev pub earlier : JobRow Value → Option (JobRow Value) → JobRow Value
  earlier row none = row
  earlier row (some other) = if claimed_before other row then other else row

  -- The first claimable row in that order. No other transaction holds a row: `SKIP LOCKED` skips none.
  unfoldable pub candidate : ℕ → List JobType → Table Value → Option (JobRow Value)
  candidate now capabilities [] = none
  candidate now capabilities (row ∷ rows) =
      let rest = candidate now capabilities rows in
      if claimable now capabilities row then some (earlier row rest) else rest

  -- `fresh` is `gen_random_uuid()`, `duration` the lease in ticks.
  abbrev pub start : ℕ → ℕ → String → ℕ → JobRow Value → JobRow Value
  start now fresh worker duration row = record row {
    state = "running";
    lease_token = some fresh;
    lease_owner = some worker;
    lease_expires_at = some (now + duration);
    last_heartbeat_at = some now;
    attempt_count = row.attempt_count + 1;
    updated_at = now;
  }

  abbrev pub same_id : ℕ → JobRow Value → Bool
  same_id id row = row.id == id

  -- The claim's statement: the candidate's row is started.
  unfoldable pub claim_rows :
      ℕ → ℕ → String → ℕ → List JobType → Table Value → Option (JobRow Value) × Table Value
  claim_rows now fresh worker duration capabilities rows = elim (candidate now capabilities rows) [
    | none ↦ (none, rows)
    | some row ↦ update_where (same_id row.id) (start now fresh worker duration) rows
  ]

  abbrev pub held_by : ℕ → JobLease → JobRow Value → Bool
  held_by now l row =
      row.id == l.job_id
      && str_eq row.state "running"
      && opt_str_eq row.lease_owner l.lease_owner
      && opt_nat_eq row.lease_token l.lease_token
      && expires_after row now

  abbrev pub extend : ℕ → ℕ → JobRow Value → JobRow Value
  extend now duration row = record row {
    lease_expires_at = some (now + duration);
    last_heartbeat_at = some now;
    updated_at = now;
  }

  abbrev pub succeed : ℕ → JobRow Value → JobRow Value
  succeed now row = record row {
    state = "succeeded";
    lease_token = none;
    lease_owner = none;
    lease_expires_at = none;
    last_heartbeat_at = none;
    completed_at = some now;
    updated_at = now;
  }

  abbrev pub already_succeeded : JobLease → JobRow Value → Bool
  already_succeeded l row =
      row.id == l.job_id && str_eq row.state "succeeded" && row.attempt_count == l.attempt_number

  -- The unique index on the keys that are set.
  abbrev pub same_key : Option String → JobRow Value → Bool
  same_key none row = false
  same_key (some key) row = opt_str_eq row.dedupe_key key
