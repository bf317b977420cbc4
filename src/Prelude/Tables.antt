-- ===== src/Prelude/Tables.antt =====
-- Tables as lists of rows, and the statements that fix a row's key: `SELECT … WHERE` and `UPDATE … WHERE
-- … RETURNING`.
pub mod Rewrites
pub mod Swaps
pub mod Inserts
use sooqa.Prelude.Tests.{if◌then◌else◌}
use Prim.Native.Nat.{ℕ, suc}
use mathlib.Core.Bool.{Bool, false, ◌||◌}
use mathlib.Core.List.{List, [], ◌∷◌}
use mathlib.Core.Option.{Option, none, some}

module _ {Row : Type 0} where
  -- With a condition that fixes the key, one row at most meets it.
  unfoldable pub update_where : (Row → Bool) → (Row → Row) → List Row → Option Row × List Row
  update_where p f [] = (none, [])
  update_where p f (row ∷ rows) =
      let rest = update_where p f rows in
      if p row then (some (f row), f row ∷ rows) else (rest.0, row ∷ rest.1)

  unfoldable pub select_where : (Row → Bool) → List Row → Option Row
  select_where p [] = none
  select_where p (row ∷ rows) = if p row then some row else select_where p rows

  abbrev pub exists_where : (Row → Bool) → List Row → Bool
  exists_where p [] = false
  exists_where p (row ∷ rows) = p row || exists_where p rows

  abbrev pub count_where : (Row → Bool) → List Row → ℕ
  count_where p [] = 0
  count_where p (row ∷ rows) = if p row then suc (count_where p rows) else count_where p rows
