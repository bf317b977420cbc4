-- ===== src/Jobs/Settlement/Fallback.antt =====
-- What `settle` of settlement.rs makes of the outcome of the command's family, and the whole of it for a
-- cleanup, whose family is cleanup.rs.
use sooqa.Prelude.{Bool, true, false, ◌&&◌, if◌then◌else◌, ok, err, ℕ}
use sooqa.Jobs.Commands.{JobCommand, Serde, CleanupWorkspacePayload, cleanup_workspace}
use sooqa.Jobs.Rows.{
  Job, JobLease, JobRepositoryError, lease_lost, JobSettlement, allows_expired_lease,
}
use sooqa.Jobs.Table.{Table}
use sooqa.Jobs.Queue.{Outcome}
use sooqa.Jobs.Settlement.{settle_job, load_already_requeued}

abbrev pub is_lease_lost : JobRepositoryError → Bool
is_lease_lost lease_lost = true
is_lease_lost _ = false

module _ {Value Inspection : Type 0} (serde : Serde Value Inspection) where
  -- A lost lease that a non-consuming settlement held may have been settled so before.
  unfoldable pub or_requeued :
      JobLease
      → JobCommand Inspection
      → JobSettlement
      → Outcome Value (Job Inspection)
      → Outcome Value (Job Inspection)
  or_requeued l expected settlement done = elim done.0 [
    | ok job ↦ (ok job, done.1)
    | err e ↦
        if is_lease_lost e && allows_expired_lease settlement
        then (load_already_requeued serde l settlement expected done.1, done.1)
        else (err e, done.1)
  ]

  unfoldable pub settle_cleanup :
      ℕ
      → ℕ
      → JobLease
      → CleanupWorkspacePayload
      → JobSettlement
      → Table Value
      → Outcome Value (Job Inspection)
  settle_cleanup now clock l payload settlement rows =
      or_requeued l (cleanup_workspace payload) settlement
        (settle_job serde now clock l (cleanup_workspace payload) settlement rows)
