-- ===== src/Jobs/Table/Rewrites.antt =====
-- What the statements do to the table of jobs, whose ids are distinct.
pub use sooqa.Prelude.Tables.Rewrites.{
  Mem, here, there, found_row, some_arg, All-Mem, select_where-some, update_where-All,
  update_where-none, select_where-none,
}
use sooqa.Prelude.{◌≡◌, Bool, true, some}
use sooqa.Prelude.Tables.Rewrites
use sooqa.Jobs.Rows.{JobRow}
use sooqa.Jobs.Table.{Table, update_where}

module _ {Value : Type 0} where
  -- The primary key.
  abbrev pub Distinct : Table Value → Type 0
  Distinct rows = Rewrites.Distinct (λ row. row.id) rows

  pub Distinct-Mem :
      (a b : JobRow Value) (rows : Table Value)
      → Distinct rows
      → Mem a rows
      → Mem b rows
      → a.id ≡ b.id
      → a ≡ b
  Distinct-Mem = Rewrites.Distinct-Mem (λ row. row.id)

  pub update_where-Distinct :
      (p : JobRow Value → Bool) (f : JobRow Value → JobRow Value) (rows : Table Value)
      → ((a : JobRow Value) → (f a).id ≡ a.id)
      → Distinct rows
      → Distinct (update_where p f rows).1
  update_where-Distinct p f rows keep =
      Rewrites.update_where-Distinct (λ row. row.id) p f rows λ a _. keep a

  -- A member that alone has its id is the row that a condition on that id meets.
  pub update_where-Mem :
      (a : JobRow Value) (p : JobRow Value → Bool) (f : JobRow Value → JobRow Value)
      (rows : Table Value)
      → Distinct rows
      → Mem a rows
      → p a ≡ true
      → ((b : JobRow Value) → p b ≡ true → b.id ≡ a.id)
      → (update_where p f rows).0 ≡ some (f a)
  update_where-Mem = Rewrites.update_where-Mem (λ row. row.id)
