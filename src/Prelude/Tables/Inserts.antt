-- ===== src/Prelude/Tables/Inserts.antt =====
-- A row with a key that no row has, added to a table.
use sooqa.Prelude.Tests.{◌==◌, ==_iff}
use sooqa.Prelude.Lists.{All, All-append, All-imp}
use sooqa.Prelude.Tables.{exists_where}
use sooqa.Prelude.Tables.Rewrites.{Mem, here, there, Distinct}
use Prim.Native.Nat.{ℕ}
use mathlib.Core.Path.{◌≡◌, refl, sym}
use mathlib.Core.Logic.{◌≢◌}
use mathlib.Core.Bool.{Bool, true, false, ◌||◌}
use mathlib.Core.List.{List, [], ◌∷◌, ◌++◌}

pub or_false : (a b : Bool) → (a || b) ≡ false → (a ≡ false) × (b ≡ false)
or_false true b h = absurd (cc h)
or_false false b h = (refl, h)

module _ {Row : Type 0} where
  pub exists_where-false :
      (p : Row → Bool) (rows : List Row)
      → exists_where p rows ≡ false
      → All (λ (a : Row). p a ≡ false) rows
  exists_where-false p [] h = tt
  exists_where-false p (row ∷ rows) h =
      let parts : (p row ≡ false) × (exists_where p rows ≡ false) = or_false (p row) _ h in
      (parts.0, exists_where-false p rows parts.1)

  pub Mem-append : (a : Row) (rows back : List Row) → Mem a rows → Mem a (rows ++ back)
  Mem-append a _ back here = here
  Mem-append a _ back (there {b} {rows} m) = there (Mem-append a rows back m)

module _ {Row : Type 0} (key : Row → ℕ) where
  pub fresh_key :
      (fresh : ℕ) (rows : List Row)
      → exists_where (λ (a : Row). key a == fresh) rows ≡ false
      → All (λ (a : Row). key a ≢ fresh) rows
  fresh_key fresh rows h =
      All-imp rows (λ a f e. absurd (cc (f, (==_iff (key a) fresh).1 e)))
        (exists_where-false (λ a. key a == fresh) rows h)

  pub Distinct-append :
      (rows : List Row) (row : Row)
      → All (λ (a : Row). key a ≢ key row) rows
      → Distinct key rows
      → Distinct key (rows ++ row ∷ [])
  Distinct-append [] row h d = (tt, tt)
  Distinct-append (a ∷ rows) row h d = (
    All-append (λ (b : Row). key b ≢ key a) rows (row ∷ []) d.0 ((λ e. h.0 (sym e)), tt),
    Distinct-append rows row h.1 d.1,
  )
