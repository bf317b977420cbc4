-- ===== src/Jobs/Queue/Claim.antt =====
-- What a claim takes and what it leaves, said without the tests and the updates of the statement.
use sooqa.Prelude.{
  ℕ, ◌+◌, ◌≤◌, ◌<◌, ◌≡◌, refl, arith, String, true, false, Bool-cases, ◌⊎◌, inl, inr, List, [], ◌∷◌,
  map, none, some, Option-cases, ◌==◌, ==_iff,
}
use sooqa.Prelude.Strings.{str_eq, str_eq_iff}
use sooqa.Prelude.Tables.Rewrites.{Mem, here, there, All-Mem}
use sooqa.Prelude.Tables.Swaps.{swapped, update_where-map}
use sooqa.Jobs.Kinds.{JobType, job_type_as_str}
use sooqa.Jobs.Rows.{JobRow}
use sooqa.Jobs.Table.{
  Table, claim_rows, candidate, claimable, has_capability, start, same_id, claimed_before,
  update_where,
}
use sooqa.Jobs.Table.Rewrites.{Distinct, update_where-Mem}
use sooqa.Jobs.Table.Order.{IsFirst, NotBefore, not_before, candidate-IsFirst, candidate_none}

capability-Mem :
    (capabilities : List JobType) (kind : String)
    → has_capability capabilities kind ≡ true
    → (t : JobType) × (Mem t capabilities × (job_type_as_str t ≡ kind))
capability-Mem [] kind h = absurd (cc h)
capability-Mem (t ∷ capabilities) kind h = elim (Bool-cases (str_eq (job_type_as_str t) kind)) [
  | inl e ↦ (t, (here, (str_eq_iff (job_type_as_str t) kind).0 e))
  | inr e ↦
      let (u, (m, same)) = capability-Mem capabilities kind (rw e at h) in (u, (there m, same))
]

Mem-capability :
    (t : JobType) (capabilities : List JobType) (kind : String)
    → Mem t capabilities
    → job_type_as_str t ≡ kind
    → has_capability capabilities kind ≡ true
Mem-capability t _ kind here e = rw ((str_eq_iff (job_type_as_str t) kind).1 e) refl
Mem-capability t _ kind (there {b} {rows} m) e =
    let rest = Mem-capability t rows kind m e in ground arith

pair_eq : {A B : Type 0} {p : A × B} {a : A} {b : B} → p.0 ≡ a → p.1 ≡ b → p ≡ (a, b)
pair_eq h k i = (h i, k i)

module _ {Value : Type 0} where
  abbrev pub id_of : JobRow Value → ℕ
  id_of row = row.id

  -- A job that a worker with these capabilities may start now: it waits, its time has come, it has an attempt
  -- left, and its kind is the name of one of the capabilities.
  pub record IsClaimable (now : ℕ) (capabilities : List JobType) (row : JobRow Value) : Type 0 where
    pub waits : row.state ≡ "queued"
    pub due : row.run_at ≤ now
    pub left : row.attempt_count < row.max_attempts
    pub capable : (t : JobType) × (Mem t capabilities × (job_type_as_str t ≡ row.kind))

  -- The claimed row: it runs with a new lease of the worker and one more attempt, and is the same in every
  -- other column.
  pub record Claimed (now fresh duration : ℕ) (worker : String) (row out : JobRow Value)
      : Type 0 where
    pub runs : out.state ≡ "running"
    pub token : out.lease_token ≡ some fresh
    pub owner : out.lease_owner ≡ some worker
    pub expires : out.lease_expires_at ≡ some (now + duration)
    pub beat : out.last_heartbeat_at ≡ some now
    pub attempts : out.attempt_count ≡ row.attempt_count + 1
    pub touched : out.updated_at ≡ now
    pub same_job : (out.id ≡ row.id) × ((out.kind ≡ row.kind) × (out.payload ≡ row.payload))
    pub same_plan :
        (out.priority ≡ row.priority)
        × ((out.run_at ≡ row.run_at) × (out.max_attempts ≡ row.max_attempts))
    pub same_past :
        (out.created_at ≡ row.created_at)
        × ((out.completed_at ≡ row.completed_at) × (out.dedupe_key ≡ row.dedupe_key))
    pub same_error : (out.error_class ≡ row.error_class) × (out.error_message ≡ row.error_message)

  claimable-IsClaimable :
      (now : ℕ) (capabilities : List JobType) (row : JobRow Value)
      → claimable now capabilities row ≡ true
      → IsClaimable now capabilities row
  claimable-IsClaimable now capabilities row h =
      let able : has_capability capabilities row.kind ≡ true = ground arith in
      record {
        waits = (str_eq_iff row.state "queued").0 (ground arith);
        due = ground arith;
        left = ground arith;
        capable = capability-Mem capabilities row.kind able;
      }

  IsClaimable-claimable :
      (now : ℕ) (capabilities : List JobType) (row : JobRow Value)
      → IsClaimable now capabilities row
      → claimable now capabilities row ≡ true
  IsClaimable-claimable now capabilities row c =
      let waiting : str_eq row.state "queued" ≡ true = (str_eq_iff row.state "queued").1 c.waits in
      let able : has_capability capabilities row.kind ≡ true =
        Mem-capability c.capable.0 capabilities row.kind c.capable.1.0 c.capable.1.1 in
      let due_now = c.due in let some_left = c.left in ground arith

  -- A claim takes nothing, changes nothing, and no row may be claimed; or it takes a row that may be claimed and that
  -- comes first of those, and puts it, claimed, in its place.
  pub record Takes (now fresh duration : ℕ) (worker : String) (capabilities : List JobType)
      (rows : Table Value) (row out : JobRow Value) (rows' : Table Value) : Type 0 where
    pub was_there : Mem row rows
    pub might : IsClaimable now capabilities row
    pub first : (b : JobRow Value) → Mem b rows → IsClaimable now capabilities b → NotBefore b row
    pub claimed : Claimed now fresh duration worker row out
    pub replaced : rows' ≡ map (swapped id_of out) rows

  -- In a table with distinct ids, a claim returns a claimable row that no claimable row precedes by priority, run
  -- time, creation and id, running under the new lease, and puts it in its place; or it returns nothing, changes
  -- nothing, and no row is claimable.
  pub claim_rows-Takes :
      (now fresh duration : ℕ) (worker : String) (capabilities : List JobType) (rows : Table Value)
      → Distinct rows
      → ((claim_rows now fresh worker duration capabilities rows ≡ (none, rows))
          × ((b : JobRow Value) → Mem b rows → ¬ IsClaimable now capabilities b))
        ⊎ ((row : JobRow Value) × ((out : JobRow Value) × ((rows' : Table Value) × ((claim_rows now
                      fresh worker duration capabilities rows
                    ≡ (some out, rows'))
                  × Takes now fresh duration worker capabilities rows row out rows'))))
  unfolding claim_rows IsFirst
  claim_rows-Takes now fresh duration worker capabilities rows d =
      elim (Option-cases (candidate now capabilities rows)) [
        | inl e ↦
            let never = candidate_none now capabilities rows e in
            inl (
              rw (e, claim_rows) refl,
              λ b m c.
                  let closed : claimable now capabilities b ≡ false =
                    All-Mem (λ (x : JobRow Value). claimable now capabilities x ≡ false) b rows m
                      never in
                  absurd (cc (closed, IsClaimable-claimable now capabilities b c)),
            )
        | inr (row, e) ↦
            let first : IsFirst now capabilities rows row =
              candidate-IsFirst now capabilities rows row e in
            let out : JobRow Value = start now fresh worker duration row in
            let own : (row.id == row.id) ≡ true = (==_iff row.id row.id).1 refl in
            let returned : (update_where (same_id row.id) (start now fresh worker duration) rows).0
                ≡ some out =
              update_where-Mem row (same_id row.id) (start now fresh worker duration) rows d first.0
                own (λ b h. (==_iff b.id row.id).0 h) in
            let after : (update_where (same_id row.id) (start now fresh worker duration) rows).1
                ≡ map (swapped id_of out) rows =
              update_where-map id_of row (same_id row.id) (start now fresh worker duration) rows d
                first.0 own (λ b h. (==_iff b.id row.id).0 h) refl in
            inr (
              row,
              (
                out,
                (
                  map (swapped id_of out) rows,
                  (
                    rw (e, claim_rows) (pair_eq returned after),
                    record {
                      was_there = first.0;
                      might = claimable-IsClaimable now capabilities row first.1;
                      first = λ b m c. not_before b row (
                          All-Mem
                            (λ (x : JobRow Value).
                              claimable now capabilities x ≡ true → claimed_before x row ≡ false)
                            b rows m first.2 (IsClaimable-claimable now capabilities b c));
                      claimed = record {
                        runs = refl;
                        token = refl;
                        owner = refl;
                        expires = refl;
                        beat = refl;
                        attempts = refl;
                        touched = refl;
                        same_job = (refl, (refl, refl));
                        same_plan = (refl, (refl, refl));
                        same_past = (refl, (refl, refl));
                        same_error = (refl, refl);
                      };
                      replaced = refl;
                    },
                  ),
                ),
              ),
            )
      ]
