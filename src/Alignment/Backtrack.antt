-- ===== src/Alignment/Backtrack.antt =====
-- The path back from the best cell, and its matches.
pub mod Chain
use sooqa.Prelude.{
  ℕ, zero, suc, ◌+◌, ◌*◌, List, [], ◌∷◌, get_or, ◌==◌, if◌then◌else◌, Bool, true, false,
}
use sooqa.Prelude.Int.{ℤ, pos, pos_part, neg_part}
use sooqa.VideoSequence.{Sample}
use sooqa.Alignment.Score.{pair_distance_bps}

pub data PathStep : Type 0 where
  paired : ℕ → ℕ → ℕ → PathStep
  gap : PathStep

-- (incoming index, candidate index, distance)
abbrev pub Match : Type 0
Match = ℕ × ℕ × ℕ

abbrev pub is_zero : ℤ → Bool
is_zero a = pos_part a + neg_part a == 0

module _ (directions : List ℕ) (scores : List ℤ) (columns : ℕ) (incoming candidate : List Sample)
    (blank : Sample) where
  -- The `while` loop; both indices are tested above zero. The last step pushed stands first, which
  -- is the order that the source's `path.reverse()` makes.
  unfoldable pub backtrack : ℕ → ℕ → List PathStep → List PathStep
  backtrack zero j path = path
  backtrack (suc i) zero path = path
  backtrack (suc i) (suc j) path =
      let index = suc i * columns + suc j in
      let direction = get_or directions index 0 in
      let distance = pair_distance_bps (get_or incoming i blank) (get_or candidate j blank) in
      let diagonal = backtrack i j (paired i j distance ∷ path) in
      let up = backtrack i (suc j) (gap ∷ path) in
      let left = backtrack (suc i) j (gap ∷ path) in
      if is_zero (get_or scores index (pos 0))
      then path
      else if direction == 1
      then diagonal
      else if direction == 2
      then up
      else if direction == 3
      then left
      else path

-- The `filter_map` of `evidence_from_path`.
unfoldable pub matches : List PathStep → List Match
matches [] = []
matches (paired i j d ∷ path) = (i, j, d) ∷ matches path
matches (gap ∷ path) = matches path
