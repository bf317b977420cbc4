-- ===== src/Jobs/Queue/Invariant/Operations.antt =====
-- Each operation keeps the invariant.
use sooqa.Prelude.{
  ℕ, ◌≡◌, refl, arith, String, Bool, Bool-cases, inl, inr, ◌||◌, List, [], ◌∷◌, some, Option-cases,
  Result-cases, >>=-elim, ok_or-eq-ok, ok, All-append,
}
use sooqa.Prelude.Int.{pos, leb_ℤ}
use sooqa.Jobs.Kinds.{JobType}
use sooqa.Jobs.Commands.{JobCommand, Serde, NewJob}
use sooqa.Jobs.Rows.{JobRow, JobLease, JobSettlement, allows_expired_lease, lease_lost}
use sooqa.Jobs.Table.{
  Table, update_where, select_where, exists_where, held_by, extend, succeed, same_id, same_key,
}
use sooqa.Jobs.Queue.{enqueue, claim_next, heartbeat_lease, complete_lease, lease_seconds, inserted}
use sooqa.Jobs.Settlement.{
  queue_parameters, expired_update, lock_running_job, lockable, lock_expired_job,
  settle_queue_in_transaction, locked_command, validate_locked_command,
  recover_queue_only_in_transaction,
}
use sooqa.Jobs.Queue.Rows.{
  RowValid, IsQueued, RowValid-IsHeld, held_by-running, extend-IsHeld, succeed-IsDone,
  queue_parameters-Settles, expired_update-Settles,
}
use sooqa.Jobs.Queue.Invariant.{IsValid, update_where-IsValid, claim_rows-IsValid}
use sooqa.Jobs.Queue.Invariant.Rewrites.{or_false, fresh_id, Distinct-append, settle_step}

module _ {Value Inspection : Type 0} (serde : Serde Value Inspection) where
  pub enqueue-IsValid :
      (now fresh : ℕ) (job : NewJob Inspection) (rows : Table Value)
      → IsValid rows
      → IsValid (enqueue serde now fresh job rows).1
  unfolding enqueue
  enqueue-IsValid now fresh job rows h = elim (Bool-cases (leb_ℤ job.max_attempts (pos 0))) [
    | inl e ↦ rw (e, enqueue) h
    | inr e ↦
        elim (Bool-cases
          (exists_where (same_id fresh) rows || exists_where (same_key job.dedupe_key) rows)) [
            | inl taken ↦ rw (e, taken, enqueue) h
            | inr free ↦
                let unused = or_false (exists_where (same_id fresh) rows) _ free in
                let row : JobRow Value = inserted serde now fresh job in
                let waits : IsQueued row = record {
                  state_queued = refl;
                  no_token = refl;
                  no_owner = refl;
                  no_expiry = refl;
                  no_heartbeat = refl;
                  not_completed = refl;
                  attempt_left = ground arith;
                } in
                rw (e, free, enqueue)
                  (
                    All-append RowValid rows (row ∷ []) h.0 (inl waits, tt),
                    Distinct-append rows row (fresh_id fresh rows unused.0) h.1,
                  )
          ]
  ]

  pub claim_next-IsValid :
      (now fresh : ℕ) (worker : String) (duration : ℕ) (capabilities : List JobType)
      (rows : Table Value)
      → IsValid rows
      → IsValid (claim_next serde now fresh worker duration capabilities rows).1
  unfolding claim_next
  claim_next-IsValid now fresh worker duration capabilities rows h =
      elim (Result-cases (lease_seconds duration)) [
        | inl (seconds, e) ↦
            rw (e, claim_next) (claim_rows-IsValid now fresh seconds worker capabilities rows h)
        | inr (_, e) ↦ rw (e, claim_next) h
      ]

  pub heartbeat_lease-IsValid :
      (now : ℕ) (l : JobLease) (duration : ℕ) (rows : Table Value)
      → IsValid rows
      → IsValid (heartbeat_lease serde now l duration rows).1
  unfolding heartbeat_lease
  heartbeat_lease-IsValid now l duration rows h = elim (Result-cases (lease_seconds duration)) [
    | inl (seconds, e) ↦
        rw (e, heartbeat_lease)
          (update_where-IsValid (held_by now l) (extend now seconds) rows (λ a. refl)
            (λ a m p v.
              inr (
                inl
                  (extend-IsHeld now seconds a (RowValid-IsHeld a v (held_by-running now l a p)))))
            h)
    | inr (_, e) ↦ rw (e, heartbeat_lease) h
  ]

  pub complete_lease-IsValid :
      (now : ℕ) (l : JobLease) (rows : Table Value)
      → IsValid rows
      → IsValid (complete_lease serde now l rows).1
  unfolding complete_lease
  complete_lease-IsValid now l rows h =
      let valid : IsValid (update_where (held_by now l) (succeed now) rows).1 =
        update_where-IsValid (held_by now l) (succeed now) rows (λ a. refl)
          (λ a m p v.
            inr (inr (succeed-IsDone now a (RowValid-IsHeld a v (held_by-running now l a p)))))
          h in
      elim (Option-cases (update_where (held_by now l) (succeed now) rows).0) [
        | inl e ↦ rw (e, complete_lease) h
        | inr (row, e) ↦ rw (e, complete_lease) valid
      ]

  lock-select :
      (clock : ℕ) (l : JobLease) (allow : Bool) (rows : Table Value) (job : JobRow Value)
      → lock_running_job clock l allow rows ≡ ok job
      → select_where (lockable clock l allow) rows ≡ some job
  unfolding lock_running_job
  lock-select clock l allow rows job h = ok_or-eq-ok _ lease_lost h

  locked :
      (clock : ℕ) (l : JobLease) (expected : JobCommand Inspection) (allow : Bool)
      (rows : Table Value) (job : JobRow Value)
      → locked_command serde clock l expected allow rows ≡ ok job
      → select_where (lockable clock l allow) rows ≡ some job
  locked clock l expected allow rows job h =
      >>=-elim (lock_running_job clock l allow rows) _ h λ row e h1.
        >>=-elim (validate_locked_command serde row expected) _ h1
          λ _ _ h2. lock-select clock l allow rows job (cc (e, h2))

  pub settle_queue-IsValid :
      (now clock : ℕ) (l : JobLease) (expected : JobCommand Inspection) (settlement : JobSettlement)
      (rows : Table Value)
      → IsValid rows
      → IsValid (settle_queue_in_transaction serde now clock l expected settlement rows).1
  unfolding settle_queue_in_transaction
  settle_queue-IsValid now clock l expected settlement rows h =
      elim (Result-cases
        (locked_command serde clock l expected (allows_expired_lease settlement) rows)) [
          | inl (job, e) ↦
              rw (e, settle_queue_in_transaction)
                (settle_step now job (queue_parameters job settlement) _ rows
                  (locked clock l expected (allows_expired_lease settlement) rows job e)
                  (queue_parameters-Settles job settlement) h)
          | inr (_, e) ↦ rw (e, settle_queue_in_transaction) h
        ]

  pub recover_queue_only-IsValid :
      (now clock local id : ℕ) (expected : JobCommand Inspection) (rows : Table Value)
      → IsValid rows
      → IsValid (recover_queue_only_in_transaction serde now clock local id expected rows).1
  unfolding recover_queue_only_in_transaction lock_expired_job
  recover_queue_only-IsValid now clock local id expected rows h =
      elim (Option-cases (lock_expired_job clock id rows)) [
        | inl e ↦ rw (e, recover_queue_only_in_transaction) h
        | inr (job, e) ↦ elim (Result-cases (validate_locked_command serde job expected)) [
          | inl (_, v) ↦
              rw (e, v, recover_queue_only_in_transaction)
                (settle_step now job (expired_update local job) _ rows e
                  (expired_update-Settles local job) h)
          | inr (_, v) ↦ rw (e, v, recover_queue_only_in_transaction) h
        ]
      ]
