-- ===== src/Jobs/Queue/Lost.antt =====
-- What a lease that was lost can do.
use sooqa.Prelude.{
  ℕ, ◌<◌, ◌≡◌, ◌≢◌, refl, ap, arith, String, Bool, false, Bool-cases, inl, inr, Option, none, some,
  Option-cases, Result-cases, Result, ok, err, true, ◌∙◌, sym, subst, All, All-imp, ◌==◌, ==_iff,
}
use sooqa.Prelude.Strings.{opt_nat_eq, opt_str_eq, str_eq_iff}
use sooqa.Jobs.Commands.{JobCommand, Serde, CleanupWorkspacePayload, cleanup_workspace}
use sooqa.Jobs.Rows.{
  Job, JobRepositoryError, error_class, into_job, JobRow, JobLease, JobSettlement,
  allows_expired_lease, lease_lost,
}
use sooqa.Jobs.Table.{select_where, Table, held_by, extend, succeed}
use sooqa.Jobs.Table.Rewrites.{Mem, select_where-some, update_where-none, select_where-none}
use sooqa.Jobs.Queue.{heartbeat_lease, complete_lease, lease_seconds, Outcome}
use sooqa.Jobs.Settlement.{
  settle_queue_in_transaction, lock_running_job, lockable, settle_job, load_already_requeued,
  requeued, commands_have_same_owner,
}
use sooqa.Jobs.Settlement.Fallback.{or_requeued, settle_cleanup}

token_differs : (token : Option ℕ) (t : ℕ) → token ≢ some t → opt_nat_eq token t ≡ false
token_differs none t h = refl
token_differs (some u) t h = elim (Bool-cases (u == t)) [
  | inl e ↦ absurd (h (ap some ((==_iff u t).0 e)))
  | inr e ↦ e
]

module _ {Value : Type 0} where
  -- No row carries the token of the lease.
  abbrev pub IsLost : JobLease → Table Value → Type 0
  IsLost l rows = All (λ (a : JobRow Value). a.lease_token ≢ some l.lease_token) rows

  held_by-lost :
      (now : ℕ) (l : JobLease) (a : JobRow Value)
      → opt_nat_eq a.lease_token l.lease_token ≡ false
      → held_by now l a ≡ false
  held_by-lost now l a h = ground arith

  lockable-lost :
      (clock : ℕ) (l : JobLease) (allow : Bool) (a : JobRow Value)
      → opt_nat_eq a.lease_token l.lease_token ≡ false
      → lockable clock l allow a ≡ false
  lockable-lost clock l allow a h = ground arith

  -- A row of the table that waits again under the class of error that the settlement gave it.
  pub record RequeuedAs (l : JobLease) (settlement : JobSettlement) (rows : Table Value)
      (row : JobRow Value) : Type 0 where
    pub was_there : Mem row rows
    pub same_job : row.id ≡ l.job_id
    pub waits : row.state ≡ "queued"
    pub classed : row.error_class ≡ error_class settlement

class_of : (c : Option String) (class : String) → opt_str_eq c class ≡ true → c ≡ some class
class_of none class h = absurd (cc h)
class_of (some c) class h = ap some ((str_eq_iff c class).0 h)

abbrev job_result :
    {Inspection : Type 0} → Job Inspection → Result JobRepositoryError (Job Inspection)
job_result job = ok job

ok_arg : {Inspection : Type 0} {a b : Job Inspection} → job_result a ≡ ok b → a ≡ b
ok_arg h = cc

module _ {Value Inspection : Type 0} (serde : Serde Value Inspection) where
  requeued_parts :
      (l : JobLease) (class : String) (row : JobRow Value)
      → requeued serde l class row ≡ true
      → (row.id ≡ l.job_id) × (row.state ≡ "queued") × (row.error_class ≡ some class)
  requeued_parts l class row h = (
    ground arith,
    (str_eq_iff row.state "queued").0 (ground arith),
    class_of row.error_class class (ground arith),
  )

  requeued-RequeuedAs :
      (l : JobLease) (settlement : JobSettlement) (expected : JobCommand Inspection)
      (rows : Table Value) (job : Job Inspection)
      → load_already_requeued serde l settlement expected rows ≡ ok job
      → (row : JobRow Value) × (RequeuedAs l settlement rows row × (into_job serde row ≡ ok job))
  unfolding load_already_requeued
  requeued-RequeuedAs l settlement expected rows job h =
      elim (Option-cases (error_class settlement)) [
        | inl e ↦ absurd (cc (rw (e, load_already_requeued) at h))
        | inr (class, e) ↦ elim (Option-cases (select_where (requeued serde l class) rows)) [
          | inl s ↦ absurd (cc (rw (e, s, load_already_requeued) at h))
          | inr (row, s) ↦ elim (Result-cases (into_job serde row)) [
            | inr (x, r) ↦ absurd (cc (rw (e, s, r, load_already_requeued) at h))
            | inl (read, r) ↦ elim (Bool-cases (commands_have_same_owner expected read.command)) [
              | inr o ↦ absurd (cc (rw (e, s, r, o, load_already_requeued) at h))
              | inl o ↦
                  let same : read ≡ job = ok_arg (rw (e, s, r, o, load_already_requeued) at h) in
                  let (m, met) = select_where-some (requeued serde l class) rows row s in
                  let (own, waits, classed) = requeued_parts l class row met in
                  (
                    row,
                    (
                      record {
                        was_there = m;
                        same_job = own;
                        waits = waits;
                        classed = classed ∙ sym e;
                      },
                      r ∙ ap job_result same,
                    ),
                  )
            ]
          ]
        ]
      ]

  Settles : JobLease → JobSettlement → Table Value → Outcome Value (Job Inspection) → Type 0
  Settles l settlement rows done =
      (done.1 ≡ rows)
      × (allows_expired_lease settlement ≡ false → done.0 ≡ err lease_lost)
      × ((job : Job Inspection)
          → done.0 ≡ ok job
          → (row : JobRow Value) × (RequeuedAs l settlement rows row
              × (into_job serde row ≡ ok job)))

  settled_before :
      (l : JobLease) (payload : CleanupWorkspacePayload) (settlement : JobSettlement)
      (rows : Table Value)
      → Settles l settlement rows
          (or_requeued serde l (cleanup_workspace payload) settlement (err lease_lost, rows))
  unfolding Settles or_requeued
  settled_before l payload settlement rows = elim (Bool-cases (allows_expired_lease settlement)) [
    | inl again ↦
        rw (again, or_requeued)
          (
            refl,
            (λ h. absurd (cc h)),
            requeued-RequeuedAs l settlement (cleanup_workspace payload) rows,
          )
    | inr once ↦ rw (once, or_requeued) (refl, (λ h. refl), λ job h. absurd (cc h))
  ]

  -- A lease whose token no row carries is lost: a heartbeat of some duration returns `lease_lost`, and neither it nor
  -- a completion nor the settlement of a cleanup changes the table. That settlement returns `lease_lost` if it
  -- would consume the attempt; otherwise it may return a job, which is that of a row with the lease's id
  -- that waits again under the settlement's class of error.
  pub lost_lease :
      (now clock duration : ℕ) (l : JobLease) (payload : CleanupWorkspacePayload)
      (settlement : JobSettlement) (rows : Table Value)
      → IsLost l rows
      → 0 < duration
      → (heartbeat_lease serde now l duration rows ≡ (err lease_lost, rows))
        × ((complete_lease serde now l rows).1 ≡ rows)
        × ((settle_cleanup serde now clock l payload settlement rows).1 ≡ rows)
        × (allows_expired_lease settlement ≡ false
            → (settle_cleanup serde now clock l payload settlement rows).0 ≡ err lease_lost)
        × ((job : Job Inspection)
            → (settle_cleanup serde now clock l payload settlement rows).0 ≡ ok job
            → (row : JobRow Value) × (RequeuedAs l settlement rows row
                × (into_job serde row ≡ ok job)))
  unfolding heartbeat_lease complete_lease settle_queue_in_transaction lock_running_job
      lease_seconds settle_cleanup settle_job Settles
  lost_lease now clock duration l payload settlement rows lost hd =
      let held : All (λ (a : JobRow Value). held_by now l a ≡ false) rows =
        All-imp rows (λ a h. held_by-lost now l a (token_differs a.lease_token l.lease_token h))
          lost in
      let locked : All
          (λ (a : JobRow Value). lockable clock l (allows_expired_lease settlement) a ≡ false)
          rows =
        All-imp rows
          (λ a h.
            lockable-lost clock l (allows_expired_lease settlement) a
              (token_differs a.lease_token l.lease_token h))
          lost in
      let positive : (duration == 0) ≡ false = ground arith in
      let family : settle_job serde now clock l (cleanup_workspace payload) settlement rows
          ≡ (err lease_lost, rows) =
        rw
          (
            settle_job,
            settle_queue_in_transaction,
            select_where-none (lockable clock l (allows_expired_lease settlement)) rows locked,
          )
          refl in
      let settles = settled_before l payload settlement rows in
      let outcome : settle_cleanup serde now clock l payload settlement rows
          ≡ or_requeued serde l (cleanup_workspace payload) settlement (err lease_lost, rows) =
        ap (or_requeued serde l (cleanup_workspace payload) settlement) family in
      let whole = subst (Settles l settlement rows) (sym outcome) settles in
      (
        rw
            (
              positive,
              heartbeat_lease,
              update_where-none (held_by now l) (extend now duration) rows held,
            )
            refl,
        rw (complete_lease, update_where-none (held_by now l) (succeed now) rows held) refl,
        whole.0,
        whole.1,
        whole.2,
      )
