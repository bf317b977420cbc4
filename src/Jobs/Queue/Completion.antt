-- ===== src/Jobs/Queue/Completion.antt =====
-- A completion that is sent again, and the row that a settlement returns.
use sooqa.Prelude.{
  ℕ, ◌≡◌, refl, sym, ◌∙◌, subst, arith, true, false, Bool-cases, inl, inr, some, All,
}
use sooqa.Jobs.Commands.{Serde}
use sooqa.Jobs.Rows.{JobRow, JobLease, into_job}
use sooqa.Jobs.Table.{Table, update_where, select_where, held_by, succeed, already_succeeded}
use sooqa.Jobs.Table.Rewrites.{
  Mem, Distinct, Distinct-Mem, update_where-none, update_where-Mem, update_where-Distinct,
}
use sooqa.Jobs.Table.Found.{select_where-Mem, Mem-update_where, All-from_Mem}
use sooqa.Jobs.Queue.{complete_lease}

module _ {Value : Type 0} where
  held_by-id :
      (now : ℕ) (l : JobLease) (a : JobRow Value) → held_by now l a ≡ true → a.id ≡ l.job_id
  held_by-id now l a h = ground arith

  already_succeeded-id :
      (l : JobLease) (a : JobRow Value) → already_succeeded l a ≡ true → a.id ≡ l.job_id
  already_succeeded-id l a h = ground arith

  succeed-already_succeeded :
      (now : ℕ) (l : JobLease) (a : JobRow Value)
      → a.id ≡ l.job_id
      → a.attempt_count ≡ l.attempt_number
      → already_succeeded l (succeed now a) ≡ true
  succeed-already_succeeded now l a h h' = ground arith

  succeed-not_held :
      (now now' : ℕ) (l : JobLease) (a : JobRow Value) → held_by now' l (succeed now a) ≡ false
  succeed-not_held now now' l a = ground arith

  -- After a completion no row is held by its lease.
  completed_unheld :
      (now now' : ℕ) (l : JobLease) (row : JobRow Value) (rows : Table Value)
      → Distinct rows
      → Mem (succeed now row) rows
      → row.id ≡ l.job_id
      → All (λ (b : JobRow Value). held_by now' l b ≡ false) rows
  completed_unheld now now' l row rows d m e =
      All-from_Mem (λ b. held_by now' l b ≡ false) rows
        λ b mb. elim (Bool-cases (held_by now' l b)) [
          | inl h ↦
              let same : succeed now row ≡ b =
                Distinct-Mem (succeed now row) b rows d m mb (e ∙ sym (held_by-id now' l b h)) in
              subst (λ (x : JobRow Value). held_by now' l x ≡ false) same
                (succeed-not_held now now' l row)
          | inr h ↦ h
        ]

module _ {Value Inspection : Type 0} (serde : Serde Value Inspection) where
  -- In a table with distinct ids, a lease that holds a row at its attempt completes it, and the same
  -- completion, sent again at any time, returns the same job and changes nothing.
  pub complete_lease-twice :
      (now now' : ℕ) (l : JobLease) (row : JobRow Value) (rows : Table Value)
      → Distinct rows
      → Mem row rows
      → held_by now l row ≡ true
      → row.attempt_count ≡ l.attempt_number
      → ((complete_lease serde now l rows).0 ≡ into_job serde (succeed now row))
        × (complete_lease serde now' l (complete_lease serde now l rows).1
            ≡ complete_lease serde now l rows)
  unfolding complete_lease
  complete_lease-twice now now' l row rows d m h attempt =
      let id_row : row.id ≡ l.job_id = held_by-id now l row h in
      let only : (b : JobRow Value) → held_by now l b ≡ true → b.id ≡ row.id =
        λ b hb. held_by-id now l b hb ∙ sym id_row in
      let first : (update_where (held_by now l) (succeed now) rows).0 ≡ some (succeed now row) =
        update_where-Mem row (held_by now l) (succeed now) rows d m h only in
      let after : Table Value = (update_where (held_by now l) (succeed now) rows).1 in
      let d' : Distinct after =
        update_where-Distinct (held_by now l) (succeed now) rows (λ a. refl) d in
      let m' : Mem (succeed now row) after =
        Mem-update_where row (held_by now l) (succeed now) rows d m h only in
      let none_held = completed_unheld now now' l row after d' m' id_row in
      let found : select_where (already_succeeded l) after ≡ some (succeed now row) =
        select_where-Mem (succeed now row) (already_succeeded l) after d' m'
          (succeed-already_succeeded now l row id_row attempt)
          (λ b hb. already_succeeded-id l b hb ∙ sym id_row) in
      let once : complete_lease serde now l rows ≡ (into_job serde (succeed now row), after) =
        rw (complete_lease, first) refl in
      let twice : complete_lease serde now' l after ≡ (into_job serde (succeed now row), after) =
        rw
          (complete_lease, update_where-none (held_by now' l) (succeed now') after none_held, found)
          refl in
      rw once (refl, twice)
