-- ===== src/Jobs/Queue/Invariant/Rewrites.antt =====
-- The invariant under the statements that several operations share.
use sooqa.Prelude.{ℕ, ◌≡◌, ◌≢◌, Bool, false, inl, inr, [], ◌∷◌, ◌++◌, some, Option-cases, All}
pub use sooqa.Prelude.Tables.Inserts.{or_false}
use sooqa.Prelude.Tables.Inserts
use sooqa.Jobs.Rows.{JobRow}
use sooqa.Jobs.Table.{Table, select_where, exists_where, same_id}
use sooqa.Jobs.Table.Rewrites.{Distinct, select_where-some}
use sooqa.Jobs.Settlement.{
  QueueUpdate, expired_update, lock_expired_job, update_locked_job, recover_queue_only_untyped,
}
use sooqa.Jobs.Queue.Rows.{Settles, expired_update-Settles}
use sooqa.Jobs.Queue.Invariant.{IsValid, update_locked_job-IsValid}

module _ {Value : Type 0} where
  pub fresh_id :
      (fresh : ℕ) (rows : Table Value)
      → exists_where (same_id fresh) rows ≡ false
      → All (λ (a : JobRow Value). a.id ≢ fresh) rows
  fresh_id = Inserts.fresh_key (λ row. row.id)

  pub Distinct-append :
      (rows : Table Value) (row : JobRow Value)
      → All (λ (a : JobRow Value). a.id ≢ row.id) rows
      → Distinct rows
      → Distinct (rows ++ row ∷ [])
  Distinct-append = Inserts.Distinct-append (λ row. row.id)

  pub settle_step :
      (now : ℕ) (job : JobRow Value) (u : QueueUpdate) (p : JobRow Value → Bool)
      (rows : Table Value)
      → select_where p rows ≡ some job
      → Settles job u
      → IsValid rows
      → IsValid (update_locked_job now job.id u rows).1
  settle_step now job u p rows e s h =
      update_locked_job-IsValid now job u rows (select_where-some p rows job e).0 s h

  pub recover_untyped-IsValid :
      (now clock local id : ℕ) (rows : Table Value)
      → IsValid rows
      → IsValid (recover_queue_only_untyped now clock local id rows).1
  unfolding recover_queue_only_untyped lock_expired_job
  recover_untyped-IsValid now clock local id rows h =
      elim (Option-cases (lock_expired_job clock id rows)) [
        | inl e ↦ rw (e, recover_queue_only_untyped) h
        | inr (job, e) ↦
            rw (e, recover_queue_only_untyped)
              (settle_step now job (expired_update local job) _ rows e
                (expired_update-Settles local job) h)
      ]
