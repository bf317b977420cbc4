-- ===== src/Jobs/Table/Found.antt =====
-- The row that a condition on its id finds, before an update and after it.
pub use sooqa.Prelude.Tables.Rewrites.{All-from_Mem, update_where-some}
use sooqa.Prelude.{◌≡◌, Bool, true, some}
use sooqa.Prelude.Tables.Rewrites
use sooqa.Jobs.Rows.{JobRow}
use sooqa.Jobs.Table.{Table, update_where, select_where}
use sooqa.Jobs.Table.Rewrites.{Mem, Distinct}

module _ {Value : Type 0} where
  pub select_where-Mem :
      (a : JobRow Value) (p : JobRow Value → Bool) (rows : Table Value)
      → Distinct rows
      → Mem a rows
      → p a ≡ true
      → ((b : JobRow Value) → p b ≡ true → b.id ≡ a.id)
      → select_where p rows ≡ some a
  select_where-Mem = Rewrites.select_where-Mem (λ row. row.id)

  pub Mem-update_where :
      (a : JobRow Value) (p : JobRow Value → Bool) (f : JobRow Value → JobRow Value)
      (rows : Table Value)
      → Distinct rows
      → Mem a rows
      → p a ≡ true
      → ((b : JobRow Value) → p b ≡ true → b.id ≡ a.id)
      → Mem (f a) (update_where p f rows).1
  Mem-update_where = Rewrites.Mem-update_where (λ row. row.id)
