-- ===== src/Jobs/Rows.antt =====
-- Rows of `queue.jobs`, the jobs that they decode to, leases, settlements and errors. Times are ticks,
-- an `i32` count is a number (the table checks that it is not negative).
use sooqa.Prelude.{
  ℕ, String, Bool, true, false, ◌&&◌, ◌==◌, Option, none, some, Result, ok, map_err, ◌>>=◌,
}
use sooqa.Prelude.Strings.{opt_nat_eq, opt_str_eq}
use sooqa.Prelude.Int.{ℤ}
use sooqa.Jobs.Kinds.{JobStatus, running, job_type_try_from, job_status_try_from}
use sooqa.Jobs.Commands.{JobCommand, JobPayloadError, Serde, from_payload}

-- `database` stands for the errors that the database itself raises: a unique key, no row where one is due.
pub data JobRepositoryError : Type 0 where
  invalid_count invalid_max_attempts invalid_lease_duration lease_lost database : JobRepositoryError
  unknown_job_type unknown_job_status : String → JobRepositoryError
  invalid_payload : JobPayloadError → JobRepositoryError

pub record JobRow (Value : Type 0) : Type 0 where
  pub id : ℕ
  pub kind : String
  pub payload : Value
  pub state : String
  pub priority : ℤ
  pub run_at : ℕ
  pub attempt_count : ℕ
  pub max_attempts : ℕ
  pub lease_token : Option ℕ
  pub lease_owner : Option String
  pub lease_expires_at : Option ℕ
  pub last_heartbeat_at : Option ℕ
  pub error_class : Option String
  pub error_message : Option String
  pub dedupe_key : Option String
  pub created_at : ℕ
  pub updated_at : ℕ
  pub completed_at : Option ℕ

pub record Job (Inspection : Type 0) : Type 0 where
  pub id : ℕ
  pub command : JobCommand Inspection
  pub status : JobStatus
  pub priority : ℤ
  pub run_at : ℕ
  pub attempt_count : ℕ
  pub max_attempts : ℕ
  pub lease_token : Option ℕ
  pub lease_owner : Option String
  pub lease_expires_at : Option ℕ
  pub last_heartbeat_at : Option ℕ
  pub last_error_class : Option String
  pub last_error_message : Option String
  pub dedupe_key : Option String
  pub created_at : ℕ
  pub updated_at : ℕ
  pub completed_at : Option ℕ

pub record JobLease : Type 0 where
  pub job_id : ℕ
  pub attempt_number : ℕ
  pub lease_owner : String
  pub lease_token : ℕ

-- `Job::lease`
unfoldable pub lease : {Inspection : Type 0} → Job Inspection → Option JobLease
lease job = elim job.lease_owner [
  | none ↦ none
  | some owner ↦ elim job.lease_token [
    | none ↦ none
    | some token ↦ some (record {
      job_id = job.id;
      attempt_number = job.attempt_count;
      lease_owner = owner;
      lease_token = token;
    })
  ]
]

module _ {Value Inspection : Type 0} (serde : Serde Value Inspection) where
  -- `JobRow::into_job`
  unfoldable pub into_job : JobRow Value → Result JobRepositoryError (Job Inspection)
  into_job row = do
    kind ← map_err unknown_job_type (job_type_try_from row.kind)
    command ← map_err invalid_payload (from_payload serde kind row.payload)
    status ← map_err unknown_job_status (job_status_try_from row.state)
    ok (record {
      id = row.id;
      command = command;
      status = status;
      priority = row.priority;
      run_at = row.run_at;
      attempt_count = row.attempt_count;
      max_attempts = row.max_attempts;
      lease_token = row.lease_token;
      lease_owner = row.lease_owner;
      lease_expires_at = row.lease_expires_at;
      last_heartbeat_at = row.last_heartbeat_at;
      last_error_class = row.error_class;
      last_error_message = row.error_message;
      dedupe_key = row.dedupe_key;
      created_at = row.created_at;
      updated_at = row.updated_at;
      completed_at = row.completed_at;
    })

abbrev pub is_running : JobStatus → Bool
is_running running = true
is_running _ = false

unfoldable pub lease_matches_job : {Inspection : Type 0} → Job Inspection → JobLease → Bool
lease_matches_job job l =
    is_running job.status
    && job.id == l.job_id
    && job.attempt_count == l.attempt_number
    && opt_str_eq job.lease_owner l.lease_owner
    && opt_nat_eq job.lease_token l.lease_token

pub data JobSettlement : Type 0 where
  -- the time of the next run, the class and text of the error, and `non_consuming`
  retry defer : ℕ → String → String → Bool → JobSettlement
  fail : String → String → JobSettlement

unfoldable pub allows_expired_lease : JobSettlement → Bool
allows_expired_lease (retry run_at error_class error_message non_consuming) = non_consuming
allows_expired_lease (defer run_at error_class error_message non_consuming) = non_consuming
allows_expired_lease (fail error_class error_message) = false

unfoldable pub error_class : JobSettlement → Option String
error_class (retry run_at class message non_consuming) = some class
error_class (defer run_at class message non_consuming) = some class
error_class (fail class message) = some class
