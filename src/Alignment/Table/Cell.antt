-- ===== src/Alignment/Table/Cell.antt =====
-- The recurrence of Smith and Waterman at the cell that a round of the inner loop fills.
use sooqa.Prelude.{
  ℕ, zero, suc, ◌+◌, ◌*◌, ◌<◌, ◌≡◌, ◌≢◌, refl, ap, arith, Bool-cases, inl, inr, true, List, [], ◌∷◌,
  ◌&&◌, length, get_or, set,
}
use sooqa.Prelude.Int.{ℤ, pos, ◌+ℤ◌, ◌-ℤ◌, ◌≤ℤ◌, ltb_ℤ, leb_ℤ}
use sooqa.VideoSequence.{Sample}
use sooqa.Alignment.Score.{pair_score}
use sooqa.Alignment.Table.{Table, Best, choose, fill_cell, columns, keep_best}

-- Where a score comes from, as the code writes it: 1 is the diagonal, 2 the cell above, 3 the cell on the left, and 0 a
-- new start.
pub data Source (diagonal up left : ℤ) : ℤ → ℕ → Type 0 where
  from_diagonal : ltb_ℤ (pos 0) diagonal ≡ true → Source diagonal up left diagonal 1
  from_up : ltb_ℤ (pos 0) up ≡ true → Source diagonal up left up 2
  from_left : ltb_ℤ (pos 0) left ≡ true → Source diagonal up left left 3
  from_start : Source diagonal up left (pos 0) 0

-- The score is one of the four, and none of them is greater.
pub record Recurrence (diagonal up left score : ℤ) (direction : ℕ) : Type 0 where
  pub source : Source diagonal up left score direction
  pub not_negative : pos 0 ≤ℤ score
  pub most_diagonal : diagonal ≤ℤ score
  pub most_up : up ≤ℤ score
  pub most_left : left ≤ℤ score

choose-Recurrence :
    (diagonal up left : ℤ)
    → Recurrence diagonal up left (choose diagonal up left).0 (choose diagonal up left).1
unfolding choose
choose-Recurrence diagonal up left =
    elim (Bool-cases (ltb_ℤ (pos 0) diagonal && (leb_ℤ up diagonal && leb_ℤ left diagonal))) [
      | inl d ↦
          rw (d, choose)
            (record {
              source = from_diagonal (ground arith);
              not_negative = ground arith;
              most_diagonal = omega arith;
              most_up = ground arith;
              most_left = ground arith;
            })
      | inr d ↦ elim (Bool-cases (ltb_ℤ (pos 0) up && leb_ℤ left up)) [
        | inl u ↦
            rw (d, u, choose)
              (record {
                source = from_up (ground arith);
                not_negative = ground arith;
                most_diagonal = ground arith;
                most_up = omega arith;
                most_left = ground arith;
              })
        | inr u ↦ elim (Bool-cases (ltb_ℤ (pos 0) left)) [
          | inl l ↦
              rw (d, u, l, choose)
                (record {
                  source = from_left l;
                  not_negative = ground arith;
                  most_diagonal = ground arith;
                  most_up = ground arith;
                  most_left = omega arith;
                })
          | inr l ↦
              rw (d, u, l, choose)
                (record {
                  source = from_start;
                  not_negative = omega arith;
                  most_diagonal = ground arith;
                  most_up = ground arith;
                  most_left = ground arith;
                })
        ]
      ]
    ]

module _ {A : Type 0} where
  get_or-set : (xs : List A) (i : ℕ) (v d : A) → i < length xs → get_or (set xs i v) i d ≡ v
  get_or-set [] i v d h = absurd (omega arith)
  get_or-set (x ∷ xs) zero v d h = refl
  get_or-set (x ∷ xs) (suc i) v d h = get_or-set xs i v d (omega arith)

  get_or-set_other :
      (xs : List A) (i k : ℕ) (v d : A) → k ≢ i → get_or (set xs i v) k d ≡ get_or xs k d
  get_or-set_other [] i k v d h = refl
  get_or-set_other (x ∷ xs) zero zero v d h = absurd (h refl)
  get_or-set_other (x ∷ xs) zero (suc k) v d h = refl
  get_or-set_other (x ∷ xs) (suc i) zero v d h = refl
  get_or-set_other (x ∷ xs) (suc i) (suc k) v d h = get_or-set_other xs i k v d λ e. h (ap suc e)

-- The best cell is the new one if its score is greater than that of the best so far.
pub data Kept (best : Best) (i j : ℕ) (score : ℤ) : Best → Type 0 where
  as_it_was : score ≤ℤ best.score → Kept best i j score best
  new_best :
      ltb_ℤ best.score score ≡ true
      → Kept best i j score (record { incoming = i; candidate = j; score = score })

keep_best-Kept :
    (best : Best) (i j : ℕ) (score : ℤ) → Kept best i j score (keep_best best i j score)
keep_best-Kept best i j score = elim (Bool-cases (ltb_ℤ best.score score)) [
  | inl e ↦ rw e (new_best e)
  | inr e ↦ rw e (as_it_was (ground arith))
]

module _ (incoming candidate : List Sample) (blank : Sample) (gap_penalty : ℕ) where
  abbrev pub at : ℕ → ℕ → ℕ
  at i j = i * columns incoming candidate blank gap_penalty + j

  abbrev pub score_at : Table → ℕ → ℕ → ℤ
  score_at t i j = get_or t.scores (at i j) (pos 0)

  -- What a round does to the table.
  pub record Filled (i j : ℕ) (t t' : Table) : Type 0 where
    pub recurrence :
        Recurrence
          (score_at t i j +ℤ pair_score (get_or incoming i blank) (get_or candidate j blank))
          (score_at t i (j + 1) -ℤ pos gap_penalty)
          (score_at t (i + 1) j -ℤ pos gap_penalty)
          (score_at t' (i + 1) (j + 1))
          (get_or t'.directions (at (i + 1) (j + 1)) 0)
    pub others :
        (k : ℕ)
        → k ≢ at (i + 1) (j + 1)
        → (get_or t'.scores k (pos 0) ≡ get_or t.scores k (pos 0))
          × (get_or t'.directions k 0 ≡ get_or t.directions k 0)
    pub best : Kept t.best (i + 1) (j + 1) (score_at t' (i + 1) (j + 1)) t'.best

  -- A round whose cell is inside the table writes there the greatest of zero, the score of the diagonal neighbour with
  -- that of the pair of samples, and the scores of the cells above and on the left less the penalty of a gap, with
  -- the number of the one that it took; it changes no other cell, and keeps the cell if its score is the
  -- greatest so far.
  pub fill_cell-Filled :
      (i j : ℕ) (t : Table)
      → at (i + 1) (j + 1) < length t.scores
      → at (i + 1) (j + 1) < length t.directions
      → Filled i j t (fill_cell incoming candidate blank gap_penalty i j t)
  unfolding fill_cell
  fill_cell-Filled i j t hs hd =
      let diagonal : ℤ =
        score_at t i j +ℤ pair_score (get_or incoming i blank) (get_or candidate j blank) in
      let up : ℤ = score_at t i (j + 1) -ℤ pos gap_penalty in
      let left : ℤ = score_at t (i + 1) j -ℤ pos gap_penalty in
      let chosen : ℤ × ℕ = choose diagonal up left in
      let score : get_or (set t.scores (at (i + 1) (j + 1)) chosen.0) (at (i + 1) (j + 1)) (pos 0)
          ≡ chosen.0 =
        get_or-set t.scores (at (i + 1) (j + 1)) chosen.0 (pos 0) hs in
      let direction : get_or (set t.directions (at (i + 1) (j + 1)) chosen.1) (at (i + 1) (j + 1)) 0
          ≡ chosen.1 =
        get_or-set t.directions (at (i + 1) (j + 1)) chosen.1 0 hd in
      record {
        recurrence = rw (score, direction) (choose-Recurrence diagonal up left);
        others = λ k h. (
          get_or-set_other t.scores (at (i + 1) (j + 1)) k chosen.0 (pos 0) h,
          get_or-set_other t.directions (at (i + 1) (j + 1)) k chosen.1 0 h,
        );
        best = rw score (keep_best-Kept t.best (i + 1) (j + 1) chosen.0);
      }
