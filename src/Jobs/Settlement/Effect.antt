-- ===== src/Jobs/Settlement/Effect.antt =====
-- What a settlement by the holder of a lease does, said without the parameters and the update of the code.
use sooqa.Prelude.{
  ℕ, ◌-◌, ◌≤◌, ◌<◌, ◌≡◌, refl, sym, ◌∙◌, arith, String, Bool, true, false, ◌||◌, leb, ltb,
  Bool-cases, ◌⊎◌, inl, inr, map, none, some, ok, ◌==◌, ==_iff,
}
use sooqa.Prelude.Strings.{str_eq, str_eq_iff, opt_nat_eq, opt_str_eq}
use sooqa.Prelude.Tables.Swaps.{swapped, update_where-map}
use sooqa.Jobs.Commands.{JobCommand, Serde}
use sooqa.Jobs.Rows.{JobRow, JobLease, JobSettlement, retry, defer, fail, allows_expired_lease}
use sooqa.Jobs.Table.{Table, update_where, select_where, expires_after}
use sooqa.Jobs.Table.Rewrites.{Mem, Distinct, update_where-Mem}
use sooqa.Jobs.Table.Found.{select_where-Mem}
use sooqa.Jobs.Settlement.{
  settle_queue_in_transaction, settled, queue_parameters, update_locked_job, lock_running_job,
  lockable, locked_command, running_row, validate_locked_command, QueueUpdate, requeue,
}

-- The settlement gives the attempt back.
abbrev pub GivesBack : JobSettlement → Type 0
GivesBack (retry run_at class message non_consuming) = non_consuming ≡ true
GivesBack (defer run_at class message non_consuming) = non_consuming ≡ true
GivesBack (fail class message) = ⊥

gives_back :
    (settlement : JobSettlement) → GivesBack settlement → allows_expired_lease settlement ≡ true
unfolding allows_expired_lease
gives_back (retry run_at class message non_consuming) h = h
gives_back (defer run_at class message non_consuming) h = h
gives_back (fail class message) h = absurd h

or_true : (a b : Bool) → b ≡ true → (a || b) ≡ true
or_true a b h = ground arith

module _ {Value : Type 0} where
  abbrev pub job_id_of : JobRow Value → ℕ
  job_id_of row = row.id

  -- The row runs under the lease, which has not expired, unless the settlement gives the attempt back.
  pub record Holds (clock : ℕ) (l : JobLease) (settlement : JobSettlement) (row : JobRow Value)
      : Type 0 where
    pub same_job : row.id ≡ l.job_id
    pub runs : row.state ≡ "running"
    pub attempt : row.attempt_count ≡ l.attempt_number
    pub owner : row.lease_owner ≡ some l.lease_owner
    pub token : row.lease_token ≡ some l.lease_token
    pub lasts : GivesBack settlement ⊎ ((t : ℕ) × ((row.lease_expires_at ≡ some t) × (clock < t)))

  -- What every settlement leaves of the row: no lease, the error, and the other columns.
  pub record Released (now : ℕ) (class message : String) (row out : JobRow Value) : Type 0 where
    pub no_lease :
        (out.lease_token ≡ none)
        × ((out.lease_owner ≡ none)
            × ((out.lease_expires_at ≡ none) × (out.last_heartbeat_at ≡ none)))
    pub error : (out.error_class ≡ some class) × (out.error_message ≡ some message)
    pub touched : out.updated_at ≡ now
    pub same_job : (out.id ≡ row.id) × ((out.kind ≡ row.kind) × (out.payload ≡ row.payload))
    pub same_plan : (out.priority ≡ row.priority) × (out.max_attempts ≡ row.max_attempts)
    pub same_past : (out.created_at ≡ row.created_at) × (out.dedupe_key ≡ row.dedupe_key)

  -- The job failed for good: its time and its attempts stay.
  pub record Failed (now : ℕ) (row out : JobRow Value) : Type 0 where
    pub ended : out.state ≡ "failed"
    pub time : out.run_at ≡ row.run_at
    pub attempts : out.attempt_count ≡ row.attempt_count
    pub completed : out.completed_at ≡ some now

  -- The job waits again, until this time and with this many attempts used.
  pub record Waits (run_at attempts : ℕ) (out : JobRow Value) : Type 0 where
    pub waits : out.state ≡ "queued"
    pub time : out.run_at ≡ run_at
    pub used : out.attempt_count ≡ attempts
    pub not_completed : out.completed_at ≡ none

  abbrev pub Requeued : ℕ → ℕ → Bool → JobRow Value → JobRow Value → Type 0
  Requeued now run_at true row out = Waits run_at (row.attempt_count - 1) out
  Requeued now run_at false row out =
      ((row.attempt_count < row.max_attempts) × Waits run_at row.attempt_count out)
      ⊎ ((row.max_attempts ≤ row.attempt_count) × Failed now row out)

  abbrev pub SettledAs : ℕ → JobSettlement → JobRow Value → JobRow Value → Type 0
  SettledAs now (retry run_at class message non_consuming) row out =
      Released now class message row out × Requeued now run_at non_consuming row out
  SettledAs now (defer run_at class message non_consuming) row out =
      Released now class message row out × Requeued now run_at non_consuming row out
  SettledAs now (fail class message) row out =
      Released now class message row out × Failed now row out

  released :
      (now : ℕ) (u : QueueUpdate) (row : JobRow Value)
      → Released now u.error_class u.error_message row (settled now u row)
  released now u row = record {
    no_lease = (refl, (refl, (refl, refl)));
    error = (refl, refl);
    touched = refl;
    same_job = (refl, (refl, refl));
    same_plan = (refl, refl);
    same_past = (refl, refl);
  }

  requeue-Requeued :
      (now run_at : ℕ) (class message : String) (non_consuming : Bool) (row : JobRow Value)
      → Requeued now run_at non_consuming row
          (settled now (requeue row run_at class message non_consuming) row)
  requeue-Requeued now run_at class message true row = record {
    waits = refl;
    time = refl;
    used = omega arith;
    not_completed = refl;
  }
  requeue-Requeued now run_at class message false row =
      elim (Bool-cases (leb row.max_attempts row.attempt_count)) [
        | inl e ↦ inr (
          ground arith,
          rw e (record { ended = refl; time = refl; attempts = refl; completed = refl }),
        )
        | inr e ↦ inl (
          ground arith,
          rw e (record { waits = refl; time = refl; used = refl; not_completed = refl }),
        )
      ]

  settled-SettledAs :
      (now : ℕ) (settlement : JobSettlement) (row : JobRow Value)
      → SettledAs now settlement row (settled now (queue_parameters row settlement) row)
  unfolding queue_parameters
  settled-SettledAs now (retry run_at class message non_consuming) row = (
    released now (queue_parameters row (retry run_at class message non_consuming)) row,
    requeue-Requeued now run_at class message non_consuming row,
  )
  settled-SettledAs now (defer run_at class message non_consuming) row = (
    released now (queue_parameters row (defer run_at class message non_consuming)) row,
    requeue-Requeued now run_at class message non_consuming row,
  )
  settled-SettledAs now (fail class message) row = (
    released now (queue_parameters row (fail class message)) row,
    record { ended = refl; time = refl; attempts = refl; completed = refl },
  )

  Holds-lockable :
      (clock : ℕ) (l : JobLease) (settlement : JobSettlement) (row : JobRow Value)
      → Holds clock l settlement row
      → lockable clock l (allows_expired_lease settlement) row ≡ true
  Holds-lockable clock l settlement row h =
      let own = (==_iff row.id l.job_id).1 h.same_job in
      let runs = (str_eq_iff row.state "running").1 h.runs in
      let attempt = (==_iff row.attempt_count l.attempt_number).1 h.attempt in
      let owner : opt_str_eq row.lease_owner l.lease_owner ≡ true =
        rw h.owner ((str_eq_iff l.lease_owner l.lease_owner).1 refl) in
      let token : opt_nat_eq row.lease_token l.lease_token ≡ true =
        rw h.token ((==_iff l.lease_token l.lease_token).1 refl) in
      let lasts : (allows_expired_lease settlement || expires_after row clock) ≡ true =
        elim h.lasts [
          | inl back ↦ rw (gives_back settlement back) refl
          | inr (t, (e, later)) ↦
              rw e (or_true (allows_expired_lease settlement) (ltb clock t) (ground arith))
        ] in
      rw (own, runs, attempt, owner, token) lasts

  lockable_id :
      (clock : ℕ) (l : JobLease) (allow : Bool) (b : JobRow Value)
      → lockable clock l allow b ≡ true
      → b.id ≡ l.job_id
  lockable_id clock l allow b h = ground arith

  running_row-id : (id : ℕ) (b : JobRow Value) → running_row id b ≡ true → b.id ≡ id
  running_row-id id b h = ground arith

module _ {Value Inspection : Type 0} (serde : Serde Value Inspection) where
  -- In a table with distinct ids, when a row runs under the lease, which may have expired only if the settlement gives
  -- the attempt back, and the row's command has the expected owner, the settlement puts a row in its place and
  -- returns it. That row has no lease and the settlement's error. A final failure ends it at once; a retry or a
  -- deferral lets it wait until the time that is asked for, with the attempt given back if it is not
  -- consumed, but ends it, with its time as it was, if it is consumed and no attempt is left.
  pub settle_queue-SettledAs :
      (now clock : ℕ) (l : JobLease) (expected c : JobCommand Inspection)
      (settlement : JobSettlement) (row : JobRow Value) (rows : Table Value)
      → Distinct rows
      → Mem row rows
      → Holds clock l settlement row
      → validate_locked_command serde row expected ≡ ok c
      → (out : JobRow Value) × (SettledAs now settlement row out
          × (settle_queue_in_transaction serde now clock l expected settlement rows
              ≡ (ok out, map (swapped job_id_of out) rows)))
  unfolding settle_queue_in_transaction lock_running_job update_locked_job
  settle_queue-SettledAs now clock l expected c settlement row rows d m holds valid =
      let u : QueueUpdate = queue_parameters row settlement in
      let allow : Bool = allows_expired_lease settlement in
      let found : select_where (lockable clock l allow) rows ≡ some row =
        select_where-Mem row (lockable clock l allow) rows d m
          (Holds-lockable clock l settlement row holds)
          (λ b hb. lockable_id clock l allow b hb ∙ sym holds.same_job) in
      let own : (row.id == row.id) ≡ true = (==_iff row.id row.id).1 refl in
      let runs : str_eq row.state "running" ≡ true =
        (str_eq_iff row.state "running").1 holds.runs in
      let held : running_row row.id row ≡ true = rw (own, runs) refl in
      let returned : (update_where (running_row row.id) (settled now u) rows).0
          ≡ some (settled now u row) =
        update_where-Mem row (running_row row.id) (settled now u) rows d m held
          (running_row-id row.id) in
      let after : (update_where (running_row row.id) (settled now u) rows).1
          ≡ map (swapped job_id_of (settled now u row)) rows =
        update_where-map job_id_of row (running_row row.id) (settled now u) rows d m held
          (running_row-id row.id) refl in
      let locked : locked_command serde clock l expected allow rows ≡ ok row =
        rw (lock_running_job, found, valid) refl in
      (
        settled now u row,
        (
          settled-SettledAs now settlement row,
          rw (settle_queue_in_transaction, locked, update_locked_job, returned, after) refl,
        ),
      )
