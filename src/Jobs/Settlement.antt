-- ===== src/Jobs/Settlement.antt =====
-- The queue's side of settlement.rs: the locked row of a lease is checked against the command and
-- moved on, and an expired lease is recovered. A statement takes `now()`, a lock `clock_timestamp()`.
pub mod Effect
pub mod Fallback
use sooqa.Prelude.{
  ℕ, ◌-◌, String, Bool, true, false, ◌&&◌, ◌||◌, not, leb, ◌==◌, if◌then◌else◌, Option, none, some,
  max, Result, ok, err, ok_or, ◌>>=◌,
}
use sooqa.Prelude.Strings.{str_eq, opt_nat_eq, opt_str_eq}
use sooqa.Prelude.Int.{int_eq}
use sooqa.Jobs.Commands.{
  JobCommand, Serde, inspect_source, download_source, probe_asset, normalize_asset,
  compute_fingerprint, finalize_ingest, materialize_publication, upload_storage_asset,
  sync_storage_caption, publish_post, cleanup_workspace,
}
use sooqa.Jobs.Rows.{
  JobRow, Job, JobLease, JobRepositoryError, lease_lost, database, into_job, JobSettlement, retry,
  defer, fail, allows_expired_lease, error_class,
}
use sooqa.Jobs.Table.{Table, update_where, select_where, expires_after}
use sooqa.Jobs.Queue.{Outcome}

unfoldable pub commands_have_same_owner :
    {Inspection : Type 0} → JobCommand Inspection → JobCommand Inspection → Bool
commands_have_same_owner (inspect_source e) (inspect_source a) = e.ingest_id == a.ingest_id
commands_have_same_owner (download_source e) (download_source a) = e.ingest_id == a.ingest_id
commands_have_same_owner (probe_asset e) (probe_asset a) = e.ingest_id == a.ingest_id
commands_have_same_owner (normalize_asset e) (normalize_asset a) = e.ingest_id == a.ingest_id
commands_have_same_owner (compute_fingerprint e) (compute_fingerprint a) =
    e.ingest_id == a.ingest_id
commands_have_same_owner (finalize_ingest e) (finalize_ingest a) = e.ingest_id == a.ingest_id
commands_have_same_owner (materialize_publication e) (materialize_publication a) =
    e.ingest_id == a.ingest_id
commands_have_same_owner (upload_storage_asset e) (upload_storage_asset a) =
    e.media_id == a.media_id && int_eq e.generation a.generation
commands_have_same_owner (sync_storage_caption e) (sync_storage_caption a) =
    e.media_id == a.media_id && int_eq e.generation a.generation
commands_have_same_owner (publish_post e) (publish_post a) = e.post_id == a.post_id
commands_have_same_owner (cleanup_workspace e) (cleanup_workspace a) =
    e.ingest_id == a.ingest_id && e.workspace_id == a.workspace_id
commands_have_same_owner _ _ = false

abbrev pub is_cleanup : {Inspection : Type 0} → JobCommand Inspection → Bool
is_cleanup (cleanup_workspace payload) = true
is_cleanup _ = false

pub record QueueUpdate : Type 0 where
  pub state : String
  pub run_at : ℕ
  pub error_class : String
  pub error_message : String
  pub terminal : Bool
  pub non_consuming : Bool

abbrev pub unwrap_text : Option String → String → String
unwrap_text none d = d
unwrap_text (some s) d = s

module _ {Value : Type 0} where
  -- What `Retry` and `Defer` share.
  abbrev pub requeue : JobRow Value → ℕ → String → String → Bool → QueueUpdate
  requeue job run_at class message non_consuming =
      let terminal = not non_consuming && leb job.max_attempts job.attempt_count in
      record {
        state = if terminal then "failed" else "queued";
        run_at = if terminal then job.run_at else run_at;
        error_class = class;
        error_message = message;
        terminal = terminal;
        non_consuming = non_consuming;
      }

  unfoldable pub queue_parameters : JobRow Value → JobSettlement → QueueUpdate
  queue_parameters job (retry run_at class message non_consuming) =
      requeue job run_at class message non_consuming
  queue_parameters job (defer run_at class message non_consuming) =
      requeue job run_at class message non_consuming
  queue_parameters job (fail class message) = record {
    state = "failed";
    run_at = job.run_at;
    error_class = class;
    error_message = message;
    terminal = true;
    non_consuming = false;
  }

  abbrev pub lockable : ℕ → JobLease → Bool → JobRow Value → Bool
  lockable clock l allow_expired row =
      row.id == l.job_id
      && str_eq row.state "running"
      && row.attempt_count == l.attempt_number
      && opt_str_eq row.lease_owner l.lease_owner
      && opt_nat_eq row.lease_token l.lease_token
      && (allow_expired || expires_after row clock)

  unfoldable pub lock_running_job :
      ℕ → JobLease → Bool → Table Value → Result JobRepositoryError (JobRow Value)
  lock_running_job clock l allow_expired rows =
      ok_or (select_where (lockable clock l allow_expired) rows) lease_lost

  abbrev pub running_row : ℕ → JobRow Value → Bool
  running_row id row = row.id == id && str_eq row.state "running"

  abbrev pub settled : ℕ → QueueUpdate → JobRow Value → JobRow Value
  settled now u row = record row {
    state = u.state;
    attempt_count = if u.non_consuming then max (row.attempt_count - 1) 0 else row.attempt_count;
    run_at = u.run_at;
    lease_token = none;
    lease_owner = none;
    lease_expires_at = none;
    last_heartbeat_at = none;
    error_class = some u.error_class;
    error_message = some u.error_message;
    completed_at = if u.terminal then some now else none;
    updated_at = now;
  }

  -- `fetch_one` fails where no row is updated.
  unfoldable pub update_locked_job :
      ℕ → ℕ → QueueUpdate → Table Value → Outcome Value (JobRow Value)
  update_locked_job now id u rows =
      let updated = update_where (running_row id) (settled now u) rows in
      elim updated.0 [ none ↦ (err database, rows) | some row ↦ (ok row, updated.1) ]

  -- The update of an expired lease; `local` is the worker's own clock.
  abbrev pub expired_update : ℕ → JobRow Value → QueueUpdate
  expired_update local job =
      let terminal = leb job.max_attempts job.attempt_count in
      record {
        state = if terminal then "failed" else "queued";
        run_at = local;
        error_class = unwrap_text job.error_class "lease_expired";
        error_message = unwrap_text job.error_message "job lease expired";
        terminal = terminal;
        non_consuming = false;
      }

  -- `lease_expires_at <= clock_timestamp()`
  abbrev pub expired : ℕ → JobRow Value → Bool
  expired clock row = elim row.lease_expires_at [ none ↦ false | some t ↦ leb t clock ]

  unfoldable pub lock_expired_job : ℕ → ℕ → Table Value → Option (JobRow Value)
  lock_expired_job clock id rows =
      select_where (λ row. row.id == id && str_eq row.state "running" && expired clock row) rows

  -- A transaction that fails leaves the table as it was.
  unfoldable pub recover_queue_only_untyped : ℕ → ℕ → ℕ → ℕ → Table Value → Outcome Value Bool
  recover_queue_only_untyped now clock local id rows = elim (lock_expired_job clock id rows) [
    | none ↦ (ok false, rows)
    | some job ↦
        let updated = update_locked_job now job.id (expired_update local job) rows in
        (updated.0 >>= λ _. ok true, updated.1)
  ]

module _ {Value Inspection : Type 0} (serde : Serde Value Inspection) where
  unfoldable pub validate_locked_command :
      JobRow Value → JobCommand Inspection → Result JobRepositoryError (JobCommand Inspection)
  validate_locked_command row expected = do
    job ← into_job serde row
    if commands_have_same_owner expected job.command then ok job.command else err lease_lost

  -- The lock and the check, which read alone.
  abbrev pub locked_command :
      ℕ
      → JobLease
      → JobCommand Inspection
      → Bool
      → Table Value
      → Result JobRepositoryError (JobRow Value)
  locked_command clock l expected allow_expired rows = do
    job ← lock_running_job clock l allow_expired rows
    _ ← validate_locked_command job expected
    ok job

  unfoldable pub settle_queue_in_transaction :
      ℕ
      → ℕ
      → JobLease
      → JobCommand Inspection
      → JobSettlement
      → Table Value
      → Outcome Value (JobRow Value)
  settle_queue_in_transaction now clock l expected settlement rows =
      elim (locked_command clock l expected (allows_expired_lease settlement) rows) [
        | err e ↦ (err e, rows)
        | ok job ↦ update_locked_job now job.id (queue_parameters job settlement) rows
      ]

  abbrev pub requeued : JobLease → String → JobRow Value → Bool
  requeued l class row =
      row.id == l.job_id && str_eq row.state "queued" && opt_str_eq row.error_class class

  unfoldable pub load_already_requeued :
      JobLease
      → JobSettlement
      → JobCommand Inspection
      → Table Value
      → Result JobRepositoryError (Job Inspection)
  load_already_requeued l settlement expected rows = elim (error_class settlement) [
    | none ↦ err lease_lost
    | some class ↦ elim (select_where (requeued l class) rows) [
      | none ↦ err lease_lost
      | some row ↦ do
        job ← into_job serde row
        if commands_have_same_owner expected job.command then ok job else err lease_lost
    ]
  ]

  unfoldable pub recover_queue_only_in_transaction :
      ℕ → ℕ → ℕ → ℕ → JobCommand Inspection → Table Value → Outcome Value (Option (JobRow Value))
  recover_queue_only_in_transaction now clock local id expected rows =
      elim (lock_expired_job clock id rows) [
        | none ↦ (ok none, rows)
        | some job ↦ elim (validate_locked_command job expected) [
          | err e ↦ (err e, rows)
          | ok _ ↦
              let updated = update_locked_job now job.id (expired_update local job) rows in
              (updated.0 >>= λ row. ok (some row), updated.1)
        ]
      ]

  -- `settle_job` and `recover_job` of cleanup.rs, the family that has no row of its own to settle.
  unfoldable pub settle_job :
      ℕ
      → ℕ
      → JobLease
      → JobCommand Inspection
      → JobSettlement
      → Table Value
      → Outcome Value (Job Inspection)
  settle_job now clock l expected settlement rows =
      let done = settle_queue_in_transaction now clock l expected settlement rows in
      if is_cleanup expected
      then (done.0 >>= λ row. into_job serde row, done.1)
      else (err lease_lost, rows)

  unfoldable pub recover_job :
      ℕ → ℕ → ℕ → ℕ → JobCommand Inspection → Table Value → Outcome Value Bool
  recover_job now clock local id expected rows =
      let done = recover_queue_only_in_transaction now clock local id expected rows in
      if is_cleanup expected
      then (done.0 >>= λ row. ok (elim row [ none ↦ false | some _ ↦ true ]), done.1)
      else (err lease_lost, rows)
