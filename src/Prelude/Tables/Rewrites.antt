-- ===== src/Prelude/Tables/Rewrites.antt =====
-- What the statements do to a table, and to one whose keys differ.
use sooqa.Prelude.Tests.{Bool-cases}
use sooqa.Prelude.Lists.{All}
use sooqa.Prelude.Tables.{update_where, select_where}
use Prim.Native.Nat.{ℕ}
use mathlib.Core.Path.{◌≡◌, refl, sym, subst}
use mathlib.Core.Logic.{◌≢◌, inl, inr}
use mathlib.Core.Bool.{Bool, true, false}
use mathlib.Core.List.{List, [], ◌∷◌}
use mathlib.Core.Option.{Option, none, some}

module _ {Row : Type 0} where
  pub data Mem (a : Row) : List Row → Type 0 where
    here : {rows : List Row} → Mem a (a ∷ rows)
    there : {b : Row} {rows : List Row} → Mem a rows → Mem a (b ∷ rows)

  abbrev pub found_row : Row → Option (Row)
  found_row a = some a

  pub some_arg : {a b : Row} → found_row a ≡ some b → a ≡ b
  some_arg h = cc

  pub All-Mem : (P : Row → Type 0) (a : Row) (rows : List Row) → Mem a rows → All P rows → P a
  All-Mem P a _ here h = h.0
  All-Mem P a _ (there m) h = All-Mem P a _ m h.1

  pub select_where-some :
      (p : Row → Bool) (rows : List Row) (a : Row)
      → select_where p rows ≡ some a
      → Mem a rows × (p a ≡ true)
  unfolding select_where
  select_where-some p [] a h = absurd (cc h)
  select_where-some p (row ∷ rows) a h = elim (Bool-cases (p row)) [
    | inl e ↦
        let same : row ≡ a = some_arg (rw e at h) in
        subst (λ (x : Row). Mem x (row ∷ rows) × (p x ≡ true)) same (here, e)
    | inr e ↦ let found = select_where-some p rows a (rw e at h) in (there found.0, found.1)
  ]

  pub update_where-All :
      (P : Row → Type 0) (p : Row → Bool) (f : Row → Row) (rows : List Row)
      → ((a : Row) → Mem a rows → p a ≡ true → P a → P (f a))
      → All P rows
      → All P (update_where p f rows).1
  unfolding update_where
  update_where-All P p f [] step h = tt
  update_where-All P p f (row ∷ rows) step h = elim (Bool-cases (p row)) [
    | inl e ↦ rw e (step row here e h.0, h.1)
    | inr e ↦ rw e (h.0, update_where-All P p f rows (λ a m. step a (there m)) h.1)
  ]

  -- Where no row meets the condition, nothing changes.
  pub update_where-none :
      (p : Row → Bool) (f : Row → Row) (rows : List Row)
      → All (λ (a : Row). p a ≡ false) rows
      → update_where p f rows ≡ (none, rows)
  unfolding update_where
  update_where-none p f [] h = refl
  update_where-none p f (row ∷ rows) h = rw (h.0, update_where-none p f rows h.1) refl

  pub select_where-none :
      (p : Row → Bool) (rows : List Row)
      → All (λ (a : Row). p a ≡ false) rows
      → select_where p rows ≡ none
  unfolding select_where
  select_where-none p [] h = refl
  select_where-none p (row ∷ rows) h = rw h.0 (select_where-none p rows h.1)

  -- A statement about every row follows from one about each member.
  pub All-from_Mem :
      (P : Row → Type 0) (rows : List Row) → ((b : Row) → Mem b rows → P b) → All P rows
  All-from_Mem P [] f = tt
  All-from_Mem P (row ∷ rows) f = (f row here, All-from_Mem P rows λ b m. f b (there m))

  -- The row that an update returns is the update of one that met its condition.
  pub update_where-some :
      (p : Row → Bool) (f : Row → Row) (rows : List Row) (r : Row)
      → (update_where p f rows).0 ≡ some r
      → (a : Row) × Mem a rows × (p a ≡ true) × (r ≡ f a)
  unfolding update_where
  update_where-some p f [] r h = absurd (cc h)
  update_where-some p f (row ∷ rows) r h = elim (Bool-cases (p row)) [
    | inl e ↦ (row, here, e, sym (some_arg (rw e at h)))
    | inr e ↦
        let (a, m, h', same) = update_where-some p f rows r (rw e at h) in (a, there m, h', same)
  ]

module _ {Row : Type 0} (key : Row → ℕ) where
  -- The primary key.
  abbrev pub Distinct : List Row → Type 0
  Distinct [] = Unit
  Distinct (row ∷ rows) = All (λ (other : Row). key other ≢ key row) rows × Distinct rows

  pub Distinct-Mem :
      (a b : Row) (rows : List Row)
      → Distinct rows
      → Mem a rows
      → Mem b rows
      → key a ≡ key b
      → a ≡ b
  Distinct-Mem a b _ d here here e = refl
  Distinct-Mem a b _ d here (there m) e =
      absurd (All-Mem (λ other. key other ≢ key a) b _ m d.0 (sym e))
  Distinct-Mem a b _ d (there m) here e = absurd (All-Mem (λ other. key other ≢ key b) a _ m d.0 e)
  Distinct-Mem a b _ d (there m) (there m') e = Distinct-Mem a b _ d.1 m m' e

  -- An update that keeps the ids keeps whatever is said of ids alone.
  update_where-ids :
      (Q : ℕ → Type 0) (p : Row → Bool) (f : Row → Row) (rows : List Row)
      → ((a : Row) → p a ≡ true → key (f a) ≡ key a)
      → All (λ (a : Row). Q (key a)) rows
      → All (λ (a : Row). Q (key a)) (update_where p f rows).1
  update_where-ids Q p f rows keep h =
      update_where-All (λ a. Q (key a)) p f rows (λ a m e q. subst Q (sym (keep a e)) q) h

  pub update_where-Distinct :
      (p : Row → Bool) (f : Row → Row) (rows : List Row)
      → ((a : Row) → p a ≡ true → key (f a) ≡ key a)
      → Distinct rows
      → Distinct (update_where p f rows).1
  unfolding update_where
  update_where-Distinct p f [] keep d = tt
  update_where-Distinct p f (row ∷ rows) keep d = elim (Bool-cases (p row)) [
    | inl e ↦ rw (e, keep row e) d
    | inr e ↦ rw e (
      update_where-ids (λ x. x ≢ key row) p f rows keep d.0,
      update_where-Distinct p f rows keep d.1,
    )
  ]

  -- A member that alone has its id is the row that a condition on that id meets.
  pub update_where-Mem :
      (a : Row) (p : Row → Bool) (f : Row → Row) (rows : List Row)
      → Distinct rows
      → Mem a rows
      → p a ≡ true
      → ((b : Row) → p b ≡ true → key b ≡ key a)
      → (update_where p f rows).0 ≡ some (f a)
  unfolding update_where
  update_where-Mem a p f _ d (here {rows}) h only = rw h refl
  update_where-Mem a p f _ d (there {b} {rows} m) h only = elim (Bool-cases (p b)) [
    | inl e ↦ absurd (All-Mem (λ other. key other ≢ key b) a rows m d.0 (sym (only b e)))
    | inr e ↦ rw e (update_where-Mem a p f rows d.1 m h only)
  ]

  pub select_where-Mem :
      (a : Row) (p : Row → Bool) (rows : List Row)
      → Distinct rows
      → Mem a rows
      → p a ≡ true
      → ((b : Row) → p b ≡ true → key b ≡ key a)
      → select_where p rows ≡ some a
  unfolding select_where
  select_where-Mem a p _ d (here {rows}) h only = rw h refl
  select_where-Mem a p _ d (there {b} {rows} m) h only = elim (Bool-cases (p b)) [
    | inl e ↦ absurd (All-Mem (λ other. key other ≢ key b) a rows m d.0 (sym (only b e)))
    | inr e ↦ rw e (select_where-Mem a p rows d.1 m h only)
  ]

  pub Mem-update_where :
      (a : Row) (p : Row → Bool) (f : Row → Row) (rows : List Row)
      → Distinct rows
      → Mem a rows
      → p a ≡ true
      → ((b : Row) → p b ≡ true → key b ≡ key a)
      → Mem (f a) (update_where p f rows).1
  unfolding update_where
  Mem-update_where a p f _ d (here {rows}) h only = rw h here
  Mem-update_where a p f _ d (there {b} {rows} m) h only = elim (Bool-cases (p b)) [
    | inl e ↦ absurd (All-Mem (λ other. key other ≢ key b) a rows m d.0 (sym (only b e)))
    | inr e ↦ rw e (there (Mem-update_where a p f rows d.1 m h only))
  ]
