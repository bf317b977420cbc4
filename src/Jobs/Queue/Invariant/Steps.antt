-- ===== src/Jobs/Queue/Invariant/Steps.antt =====
-- The steps of the queue, one for each operation, and the tables that they reach from the empty one.
use sooqa.Prelude.{ℕ, ◌≡◌, refl, sym, subst, String, ◌&&◌, Bool-cases, inl, inr, List, [], ok, err}
use sooqa.Jobs.Kinds.{JobType}
use sooqa.Jobs.Commands.{JobCommand, Serde, NewJob, CleanupWorkspacePayload, cleanup_workspace}
use sooqa.Jobs.Rows.{Job, JobLease, JobSettlement, allows_expired_lease}
use sooqa.Jobs.Table.{Table}
use sooqa.Jobs.Queue.{enqueue, claim_next, heartbeat_lease, complete_lease, Outcome}
use sooqa.Jobs.Settlement.{
  recover_queue_only_untyped, settle_job, recover_job, is_cleanup, settle_queue_in_transaction,
  recover_queue_only_in_transaction,
}
use sooqa.Jobs.Settlement.Fallback.{is_lease_lost, or_requeued, settle_cleanup}
use sooqa.Jobs.Queue.Invariant.{IsValid}
use sooqa.Jobs.Queue.Invariant.Rewrites.{recover_untyped-IsValid}
use sooqa.Jobs.Queue.Invariant.Operations.{
  enqueue-IsValid, claim_next-IsValid, heartbeat_lease-IsValid, complete_lease-IsValid,
  settle_queue-IsValid, recover_queue_only-IsValid,
}

-- A step by an operation, whatever its arguments and its result.
pub data Step {Value Inspection : Type 0} (serde : Serde Value Inspection)
    : Table Value → Table Value → Type 0 where
  enqueued :
      {rows : Table Value} (now fresh : ℕ) (job : NewJob Inspection)
      → Step serde rows (enqueue serde now fresh job rows).1
  claimed :
      {rows : Table Value} (now fresh : ℕ) (worker : String) (duration : ℕ)
      (capabilities : List JobType)
      → Step serde rows (claim_next serde now fresh worker duration capabilities rows).1
  extended :
      {rows : Table Value} (now : ℕ) (l : JobLease) (duration : ℕ)
      → Step serde rows (heartbeat_lease serde now l duration rows).1
  completed :
      {rows : Table Value} (now : ℕ) (l : JobLease)
      → Step serde rows (complete_lease serde now l rows).1
  settled_cleanup :
      {rows : Table Value} (now clock : ℕ) (l : JobLease) (payload : CleanupWorkspacePayload)
      (settlement : JobSettlement)
      → Step serde rows (settle_cleanup serde now clock l payload settlement rows).1
  settled_queue :
      {rows : Table Value} (now clock : ℕ) (l : JobLease) (expected : JobCommand Inspection)
      (settlement : JobSettlement)
      → Step serde rows (settle_queue_in_transaction serde now clock l expected settlement rows).1
  recovered_queue :
      {rows : Table Value} (now clock local id : ℕ) (expected : JobCommand Inspection)
      → Step serde rows (recover_queue_only_in_transaction serde now clock local id expected rows).1
  recovered :
      {rows : Table Value} (now clock local id : ℕ) (expected : JobCommand Inspection)
      → Step serde rows (recover_job serde now clock local id expected rows).1
  recovered_untyped :
      {rows : Table Value} (now clock local id : ℕ)
      → Step serde rows (recover_queue_only_untyped now clock local id rows).1

pub data Reachable {Value Inspection : Type 0} (serde : Serde Value Inspection)
    : Table Value → Type 0 where
  empty : Reachable serde []
  next :
      {rows rows' : Table Value}
      → Reachable serde rows
      → Step serde rows rows'
      → Reachable serde rows'

module _ {Value Inspection : Type 0} (serde : Serde Value Inspection) where
  or_requeued-kept :
      (l : JobLease) (expected : JobCommand Inspection) (settlement : JobSettlement)
      (done : Outcome Value (Job Inspection))
      → (or_requeued serde l expected settlement done).1 ≡ done.1
  unfolding or_requeued
  or_requeued-kept l expected settlement (ok job, rows) = refl
  or_requeued-kept l expected settlement (err e, rows) =
      elim (Bool-cases (is_lease_lost e && allows_expired_lease settlement)) [
        | inl again ↦ rw again refl
        | inr once ↦ rw once refl
      ]

  Step-IsValid : {rows rows' : Table Value} → Step serde rows rows' → IsValid rows → IsValid rows'
  unfolding settle_cleanup settle_job recover_job
  Step-IsValid (enqueued {rows} now fresh job) h = enqueue-IsValid serde now fresh job rows h
  Step-IsValid (claimed {rows} now fresh worker duration capabilities) h =
      claim_next-IsValid serde now fresh worker duration capabilities rows h
  Step-IsValid (extended {rows} now l duration) h =
      heartbeat_lease-IsValid serde now l duration rows h
  Step-IsValid (completed {rows} now l) h = complete_lease-IsValid serde now l rows h
  Step-IsValid (settled_cleanup {rows} now clock l payload settlement) h =
      subst IsValid
        (sym (
          or_requeued-kept l (cleanup_workspace payload) settlement
            (settle_job serde now clock l (cleanup_workspace payload) settlement rows)))
        (settle_queue-IsValid serde now clock l (cleanup_workspace payload) settlement rows h)
  Step-IsValid (settled_queue {rows} now clock l expected settlement) h =
      settle_queue-IsValid serde now clock l expected settlement rows h
  Step-IsValid (recovered_queue {rows} now clock local id expected) h =
      recover_queue_only-IsValid serde now clock local id expected rows h
  Step-IsValid (recovered {rows} now clock local id expected) h =
      elim (Bool-cases (is_cleanup expected)) [
        | inl e ↦
            rw (e, recover_job)
              (recover_queue_only-IsValid serde now clock local id expected rows h)
        | inr e ↦ rw (e, recover_job) h
      ]
  Step-IsValid (recovered_untyped {rows} now clock local id) h =
      recover_untyped-IsValid now clock local id rows h

  -- Every table that enqueue, claim, heartbeat, completion, the settlement and recovery of cleanups, the recovery
  -- of rows that do not decode, and the queue's own settlement and recovery of a job of any kind lead to from
  -- the empty one, in any order and with any arguments, has distinct ids, and each of its rows waits with no
  -- lease and an attempt left, or runs with a whole lease and between one and the limit of attempts, or ended
  -- with no lease and a time of completion.
  pub Reachable-IsValid : (rows : Table Value) → Reachable serde rows → IsValid rows
  Reachable-IsValid _ empty = (tt, tt)
  Reachable-IsValid _ (next {rows} r s) = Step-IsValid s (Reachable-IsValid rows r)
