-- ===== src/Jobs/Queue/Invariant.antt =====
-- The invariant of the queue: the ids differ, and every row waits, runs or ended as the table's checks
-- and the counts of attempts ask.
pub mod Rewrites
pub mod Operations
pub mod Steps
use sooqa.Prelude.{
  ℕ, ◌+◌, ◌≤◌, ◌<◌, ◌≡◌, ◌≢◌, refl, sym, ap, ◌∙◌, subst, arith, String, Bool, true, false,
  Bool-cases, ◌⊎◌, inl, inr, ◌||◌, leb, if◌then◌else◌, List, [], ◌∷◌, ◌++◌, Option, none, some,
  Option-cases, Result, ok, err, All, All-append, All-imp, ◌==◌, ==_iff, ◌>>=◌,
}
use sooqa.Prelude.Int.{ℤ, pos, pos_part, leb_ℤ}
use sooqa.Prelude.Strings.{str_eq}
use sooqa.Jobs.Kinds.{JobType}
use sooqa.Jobs.Commands.{JobCommand, Serde, NewJob}
use sooqa.Jobs.Rows.{JobRow, JobLease, JobSettlement, allows_expired_lease, lease_lost}
use sooqa.Jobs.Table.{
  Table, update_where, select_where, exists_where, claim_rows, candidate, claimable, earlier,
  claimed_before, start, held_by, extend, succeed, same_id, same_key,
}
use sooqa.Jobs.Table.Rewrites.{
  Mem, here, there, Distinct, All-Mem, Distinct-Mem, select_where-some, update_where-All,
  update_where-Distinct,
}
use sooqa.Jobs.Table.Order.{IsFirst, candidate-IsFirst}
use sooqa.Jobs.Queue.{enqueue, claim_next, heartbeat_lease, complete_lease, lease_seconds, inserted}
use sooqa.Jobs.Settlement.{
  QueueUpdate, settled, queue_parameters, expired_update, running_row, lock_running_job, lockable,
  lock_expired_job, expired, update_locked_job, settle_queue_in_transaction, locked_command,
  validate_locked_command, recover_queue_only_untyped, recover_queue_only_in_transaction,
  settle_job, recover_job, is_cleanup,
}
use sooqa.Jobs.Queue.Rows.{
  RowValid, IsQueued, IsHeld, IsDone, RowValid-IsHeld, RowValid-IsQueued, claimable_parts,
  start-IsHeld, held_by-running, extend-IsHeld, succeed-IsDone, Settles, queue_parameters-Settles,
  expired_update-Settles, settled-RowValid,
}

module _ {Value : Type 0} where
  abbrev pub IsValid : Table Value → Type 0
  IsValid rows = All RowValid rows × Distinct rows

  -- An update that keeps the ids and is right for the rows that it meets.
  pub update_where-IsValid :
      (p : JobRow Value → Bool) (f : JobRow Value → JobRow Value) (rows : Table Value)
      → ((a : JobRow Value) → (f a).id ≡ a.id)
      → ((a : JobRow Value) → Mem a rows → p a ≡ true → RowValid a → RowValid (f a))
      → IsValid rows
      → IsValid (update_where p f rows).1
  update_where-IsValid p f rows keep step h =
      (update_where-All RowValid p f rows step h.0, update_where-Distinct p f rows keep h.1)

  pub claim_rows-IsValid :
      (now fresh duration : ℕ) (worker : String) (capabilities : List JobType) (rows : Table Value)
      → IsValid rows
      → IsValid (claim_rows now fresh worker duration capabilities rows).1
  unfolding claim_rows IsFirst
  claim_rows-IsValid now fresh duration worker capabilities rows h =
      elim (Option-cases (candidate now capabilities rows)) [
        | inl e ↦ rw (e, claim_rows) h
        | inr (row, e) ↦
            let first : IsFirst now capabilities rows row =
              candidate-IsFirst now capabilities rows row e in
            let waits : IsQueued row =
              RowValid-IsQueued row (All-Mem RowValid row rows first.0 h.0)
                (claimable_parts now capabilities row first.1).0 in
            rw (e, claim_rows)
              (update_where-IsValid (same_id row.id) (start now fresh worker duration) rows
                (λ a. refl)
                (λ a m p v.
                  let same : row ≡ a =
                    Distinct-Mem row a rows h.1 first.0 m (sym ((==_iff a.id row.id).0 p)) in
                  inr (inl (start-IsHeld now fresh duration worker a (subst IsQueued same waits))))
                h)
      ]

  running_row_parts :
      (id : ℕ) (a : JobRow Value)
      → running_row id a ≡ true
      → (a.id ≡ id) × (str_eq a.state "running" ≡ true)
  running_row_parts id a h = ground arith

  -- The row that a lock returned is the one that the update meets.
  pub update_locked_job-IsValid :
      (now : ℕ) (job : JobRow Value) (u : QueueUpdate) (rows : Table Value)
      → Mem job rows
      → Settles job u
      → IsValid rows
      → IsValid (update_locked_job now job.id u rows).1
  unfolding update_locked_job
  update_locked_job-IsValid now job u rows m s h =
      let updated : Option (JobRow Value) × Table Value =
        update_where (running_row job.id) (settled now u) rows in
      let valid : IsValid updated.1 =
        update_where-IsValid (running_row job.id) (settled now u) rows (λ a. refl)
          (λ a m' p v.
            let parts = running_row_parts job.id a p in
            let same : job ≡ a = Distinct-Mem job a rows h.1 m m' (sym parts.0) in
            settled-RowValid now u a (RowValid-IsHeld a v parts.1)
              (subst (λ (x : JobRow Value). Settles x u) same s))
          h in
      elim (Option-cases updated.0) [
        | inl e ↦ rw (e, update_locked_job) h
        | inr (row, e) ↦ rw (e, update_locked_job) valid
      ]
