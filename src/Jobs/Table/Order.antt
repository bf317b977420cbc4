-- ===== src/Jobs/Table/Order.antt =====
-- The claim's order is strict and weak, and the candidate comes first in it.
use sooqa.Prelude.{
  ℕ, ◌+◌, ◌≤◌, ◌<◌, ◌≡◌, refl, sym, ap, ◌∙◌, subst, arith, true, false, Bool-cases, ◌⊎◌, inl, inr,
  List, [], ◌∷◌, none, some, Option-cases, All, All-imp,
}
use sooqa.Prelude.Int.{ℤ, pos_part, neg_part}
use sooqa.Jobs.Kinds.{JobType}
use sooqa.Jobs.Rows.{JobRow}
use sooqa.Jobs.Table.{Table, candidate, claimable, earlier, claimed_before}
use sooqa.Jobs.Table.Rewrites.{Mem, here, there, found_row, some_arg}

-- `b` comes first by this key, or the keys are equal and the later ones decide.
unfoldable pub Later : ℕ → ℕ → Type 0 → Type 0
Later a b Rest = (b < a) ⊎ ((a ≡ b) × Rest)

Later-trans : (a b c : ℕ) {R S T : Type 0} → (R → S → T) → Later a b R → Later b c S → Later a c T
unfolding Later
Later-trans a b c f (inl h) (inl h') = inl (omega arith)
Later-trans a b c f (inl h) (inr h') = inl (omega arith)
Later-trans a b c f (inr h) (inl h') = inl (omega arith)
Later-trans a b c f (inr h) (inr h') = inr (omega arith, f h.1 h'.1)

-- The same for the priority, which descends; equal priorities are below each other.
unfoldable pub LaterPriority : ℤ → ℤ → Type 0 → Type 0
LaterPriority a b Rest =
    (pos_part a + neg_part b < pos_part b + neg_part a)
    ⊎ ((pos_part a + neg_part b ≡ pos_part b + neg_part a) × Rest)

LaterPriority-trans :
    (a b c : ℤ) {R S T : Type 0}
    → (R → S → T)
    → LaterPriority a b R
    → LaterPriority b c S
    → LaterPriority a c T
unfolding LaterPriority
LaterPriority-trans a b c f (inl h) (inl h') = inl (omega arith)
LaterPriority-trans a b c f (inl h) (inr h') = inl (omega arith)
LaterPriority-trans a b c f (inr h) (inl h') = inl (omega arith)
LaterPriority-trans a b c f (inr h) (inr h') = inr (omega arith, f h.1 h'.1)

module _ {Value : Type 0} where
  -- `b` comes first in the order of priority, descending, and then of run time, creation and id, ascending; or both
  -- are equal in it.
  unfoldable pub NotBefore : JobRow Value → JobRow Value → Type 0
  NotBefore a b =
      LaterPriority a.priority b.priority
        (Later a.run_at b.run_at (Later a.created_at b.created_at (b.id ≤ a.id)))

  NotBefore-trans : (a b c : JobRow Value) → NotBefore a b → NotBefore b c → NotBefore a c
  unfolding NotBefore
  NotBefore-trans a b c = LaterPriority-trans a.priority b.priority c.priority (
      Later-trans a.run_at b.run_at c.run_at
        (Later-trans a.created_at b.created_at c.created_at λ h h'. omega arith))

  pub not_before : (a b : JobRow Value) → claimed_before a b ≡ false → NotBefore a b
  unfolding NotBefore LaterPriority Later
  not_before a b h = ground arith

  before_false : (a b : JobRow Value) → NotBefore a b → claimed_before a b ≡ false
  unfolding NotBefore LaterPriority Later
  before_false a b h = ground arith

  asymmetric : (a b : JobRow Value) → claimed_before a b ≡ true → claimed_before b a ≡ false
  asymmetric a b h = ground arith

  before_trans :
      (a b c : JobRow Value)
      → claimed_before a b ≡ false
      → claimed_before b c ≡ false
      → claimed_before a c ≡ false
  before_trans a b c h h' =
      before_false a c (NotBefore-trans a b c (not_before a b h) (not_before b c h'))

  -- The candidate is a claimable row of the table, and no claimable row comes before it.
  unfoldable pub IsFirst : ℕ → List JobType → Table Value → JobRow Value → Type 0
  IsFirst now capabilities rows a =
      Mem a rows
      × (claimable now capabilities a ≡ true)
      × All (λ (b : JobRow Value). claimable now capabilities b ≡ true → claimed_before b a ≡ false)
          rows

  irreflexive : (a : JobRow Value) → claimed_before a a ≡ false
  irreflexive a = ground arith

  pub candidate_none :
      (now : ℕ) (capabilities : List JobType) (rows : Table Value)
      → candidate now capabilities rows ≡ none
      → All (λ (b : JobRow Value). claimable now capabilities b ≡ false) rows
  unfolding candidate
  candidate_none now capabilities [] h = tt
  candidate_none now capabilities (row ∷ rows) h =
      elim (Bool-cases (claimable now capabilities row)) [
        | inl e ↦
            let found : found_row (earlier row (candidate now capabilities rows)) ≡ none =
              rw e at h in
            absurd (cc found)
        | inr e ↦ (e, candidate_none now capabilities rows (rw e at h))
      ]

  -- A claimable row in front of the rest: it, or the rest's candidate.
  earlier-IsFirst :
      (now : ℕ) (capabilities : List JobType) (row : JobRow Value) (rows : Table Value)
      → claimable now capabilities row ≡ true
      → ((a : JobRow Value)
          → candidate now capabilities rows ≡ some a
          → IsFirst now capabilities rows a)
      → IsFirst now capabilities (row ∷ rows) (earlier row (candidate now capabilities rows))
  unfolding IsFirst
  earlier-IsFirst now capabilities row rows e rec =
      let Goal : JobRow Value → Type 0 = IsFirst now capabilities (row ∷ rows) in
      elim (Option-cases (candidate now capabilities rows)) [
        | inl en ↦
            let first : Goal row = (
              here,
              e,
              (
                (λ c. irreflexive row),
                All-imp rows (λ b f c. absurd (cc (f, c)))
                    (candidate_none now capabilities rows en),
              ),
            ) in
            subst Goal (sym (ap (earlier row) en)) first
        | inr (other, eo) ↦
            let r : IsFirst now capabilities rows other = rec other eo in
            elim (Bool-cases (claimed_before other row)) [
              | inl eb ↦
                  let chosen : earlier row (some other) ≡ other = rw eb refl in
                  let first : Goal other =
                    (there r.0, r.1, ((λ c. asymmetric other row eb), r.2)) in
                  subst Goal (sym (ap (earlier row) eo ∙ chosen)) first
              | inr eb ↦
                  let chosen : earlier row (some other) ≡ row = rw eb refl in
                  let first : Goal row = (
                    here,
                    e,
                    (
                      (λ c. irreflexive row),
                      All-imp rows (λ b f c. before_trans b other row (f c) eb) r.2,
                    ),
                  ) in
                  subst Goal (sym (ap (earlier row) eo ∙ chosen)) first
            ]
      ]

  pub candidate-IsFirst :
      (now : ℕ) (capabilities : List JobType) (rows : Table Value) (a : JobRow Value)
      → candidate now capabilities rows ≡ some a
      → IsFirst now capabilities rows a
  unfolding candidate IsFirst
  candidate-IsFirst now capabilities [] a h = absurd (cc h)
  candidate-IsFirst now capabilities (row ∷ rows) a h =
      elim (Bool-cases (claimable now capabilities row)) [
        | inl e ↦
            subst (IsFirst now capabilities (row ∷ rows)) (some_arg (rw e at h)) (
              earlier-IsFirst now capabilities row rows e (candidate-IsFirst now capabilities rows))
        | inr e ↦
            let r : IsFirst now capabilities rows a =
              candidate-IsFirst now capabilities rows a (rw e at h) in
            (there r.0, r.1, ((λ c. absurd (cc (e, c))), r.2))
      ]
