-- ===== src/Alignment/Table.antt =====
-- The table of local alignments: a row-major vector of scores and one of directions, filled cell by
-- cell, with the best cell so far.
pub mod Cell
use sooqa.Prelude.{
  ℕ, zero, suc, ◌+◌, ◌*◌, List, ◌&&◌, if◌then◌else◌, get_or, set, replicate, length,
}
use sooqa.Prelude.Int.{ℤ, pos, ◌+ℤ◌, ◌-ℤ◌, ltb_ℤ, leb_ℤ}
use sooqa.VideoSequence.{Sample}
use sooqa.Alignment.Score.{pair_score}

pub record Best : Type 0 where
  pub incoming : ℕ
  pub candidate : ℕ
  pub score : ℤ

pub record Table : Type 0 where
  pub scores : List ℤ
  pub directions : List ℕ
  pub best : Best

-- The score of a cell with the direction that it came from: 1 is diagonal, 2 up, 3 left, 0 none.
unfoldable pub choose : ℤ → ℤ → ℤ → ℤ × ℕ
choose diagonal up left =
    if ltb_ℤ (pos 0) diagonal && (leb_ℤ up diagonal && leb_ℤ left diagonal)
    then (diagonal, 1)
    else if ltb_ℤ (pos 0) up && leb_ℤ left up
    then (up, 2)
    else if ltb_ℤ (pos 0) left
    then (left, 3)
    else (pos 0, 0)

-- The best cell so far, after a cell with this score.
abbrev pub keep_best : Best → ℕ → ℕ → ℤ → Best
keep_best best i j score =
    if ltb_ℤ best.score score then record { incoming = i; candidate = j; score = score } else best

module _ (incoming candidate : List Sample) (blank : Sample) (gap_penalty : ℕ) where
  abbrev pub columns : ℕ
  columns = length candidate + 1

  -- An index into a vector is in range, where Rust would panic; `blank` and 0 are never read.
  abbrev pub pair_at : ℕ → ℕ → ℤ
  pair_at i j = pair_score (get_or incoming i blank) (get_or candidate j blank)

  -- The body of the inner loop at the cell (i + 1, j + 1).
  unfoldable pub fill_cell : ℕ → ℕ → Table → Table
  fill_cell i j t =
      let index = (i + 1) * columns + (j + 1) in
      let diagonal = get_or t.scores (i * columns + j) (pos 0) +ℤ pair_at i j in
      let up = get_or t.scores (i * columns + (j + 1)) (pos 0) -ℤ pos gap_penalty in
      let left = get_or t.scores ((i + 1) * columns + j) (pos 0) -ℤ pos gap_penalty in
      let (score, direction) = choose diagonal up left in
      record {
        scores = set t.scores index score;
        directions = set t.directions index direction;
        best = keep_best t.best (i + 1) (j + 1) score;
      }

  -- The two loops, by the number of rounds left.
  unfoldable pub fill_row : ℕ → ℕ → ℕ → Table → Table
  fill_row zero i j t = t
  fill_row (suc rounds) i j t = fill_row rounds i (j + 1) (fill_cell i j t)

  unfoldable pub fill_rows : ℕ → ℕ → Table → Table
  fill_rows zero i t = t
  fill_rows (suc rounds) i t = fill_rows rounds (i + 1) (fill_row (length candidate) i 0 t)

  unfoldable pub empty_table : Table
  empty_table = record {
    scores = replicate ((length incoming + 1) * columns) (pos 0);
    directions = replicate ((length incoming + 1) * columns) 0;
    best = record { incoming = 0; candidate = 0; score = pos 0 };
  }

  unfoldable pub fill : Table
  fill = fill_rows (length incoming) 0 empty_table
