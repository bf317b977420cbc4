-- ===== src/Prelude/Tables/Swaps.antt =====
-- An update of the one row that meets its condition is that row put in the place of the one with its key.
use sooqa.Prelude.Tests.{◌==◌, ==_iff, if◌then◌else◌, Bool-cases}
use sooqa.Prelude.Lists.{All}
use sooqa.Prelude.Tables.{update_where}
use sooqa.Prelude.Tables.Rewrites.{Mem, here, there, Distinct, All-Mem}
use Prim.Native.Nat.{ℕ}
use mathlib.Core.Path.{◌≡◌, refl, sym, subst, ap, ◌∙◌}
use mathlib.Core.Logic.{◌≢◌, inl, inr}
use mathlib.Core.Bool.{Bool, true, false}
use mathlib.Core.List.{List, [], ◌∷◌, map}

module _ {Row : Type 0} (key : Row → ℕ) where
  abbrev pub swapped : Row → Row → Row
  swapped row b = if key b == key row then row else b

  differ_test : (a b : ℕ) → a ≢ b → (a == b) ≡ false
  differ_test a b h = elim (Bool-cases (a == b)) [
    | inl e ↦ absurd (h ((==_iff a b).0 e))
    | inr e ↦ e
  ]

  map-others :
      (row : Row) (rows : List Row)
      → All (λ (b : Row). key b ≢ key row) rows
      → map (swapped row) rows ≡ rows
  map-others row [] h = refl
  map-others row (b ∷ rows) h =
      rw (differ_test (key b) (key row) h.0) (ap (λ xs. b ∷ xs) (map-others row rows h.1))

  pub update_where-map :
      (a : Row) (p : Row → Bool) (f : Row → Row) (rows : List Row)
      → Distinct key rows
      → Mem a rows
      → p a ≡ true
      → ((b : Row) → p b ≡ true → key b ≡ key a)
      → key (f a) ≡ key a
      → (update_where p f rows).1 ≡ map (swapped (f a)) rows
  unfolding update_where
  update_where-map a p f _ d (here {rows}) h only keep =
      let own : (key a == key (f a)) ≡ true = (==_iff (key a) (key (f a))).1 (sym keep) in
      rw (h, own)
        (ap (λ xs. f a ∷ xs)
          (sym (
            map-others (f a) rows (subst (λ k. All (λ (b : Row). key b ≢ k) rows) (sym keep) d.0))))
  update_where-map a p f _ d (there {b} {rows} m) h only keep =
      let apart : key b ≢ key a = λ e. All-Mem (λ other. key other ≢ key b) a rows m d.0 (sym e) in
      let not_met : p b ≡ false = elim (Bool-cases (p b)) [
        | inl e ↦ absurd (apart (only b e))
        | inr e ↦ e
      ] in
      let other : (key b == key (f a)) ≡ false =
        differ_test (key b) (key (f a)) λ e. apart (e ∙ keep) in
      rw (not_met, other) (ap (λ xs. b ∷ xs) (update_where-map a p f rows d.1 m h only keep))
