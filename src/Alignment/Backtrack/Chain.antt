-- ===== src/Alignment/Backtrack/Chain.antt =====
-- Whatever the table holds, the matches of the path are a chain: both indices rise from each match to
-- the next, and stay below the cell where the path starts.
use sooqa.Prelude.{
  ℕ, zero, suc, ◌+◌, ◌*◌, ◌≤◌, ◌≡◌, refl, arith, if-both, List, [], ◌∷◌, get_or, length, ◌==◌,
}
use sooqa.Prelude.Int.{ℤ, pos}
use sooqa.VideoSequence.{Sample}
use sooqa.Alignment.Score.{pair_distance_bps}
use sooqa.Alignment.Backtrack.{PathStep, paired, gap, Match, backtrack, matches, is_zero}

-- The matches lie in the rectangle from (i, j) to (n, m), and rise in both indices; each carries
-- the distance of its two samples.
abbrev pub IsChain : List Sample → List Sample → Sample → ℕ → ℕ → ℕ → ℕ → List Match → Type 0
IsChain xs ys blank i j n m [] = (i ≤ n) × (j ≤ m)
IsChain xs ys blank i j n m ((a, b, d) ∷ rest) =
    (i ≤ a)
    × (j ≤ b)
    × (d ≡ pair_distance_bps (get_or xs a blank) (get_or ys b blank))
    × IsChain xs ys blank (suc a) (suc b) n m rest

module _ (xs ys : List Sample) (blank : Sample) where
  pub IsChain-weaken :
      (i j i' j' n m : ℕ) (ms : List Match)
      → i ≤ i'
      → j ≤ j'
      → IsChain xs ys blank i' j' n m ms
      → IsChain xs ys blank i j n m ms
  IsChain-weaken i j i' j' n m [] hi hj c = (omega arith, omega arith)
  IsChain-weaken i j i' j' n m ((a, b, d) ∷ rest) hi hj c = (omega arith, omega arith, c.2, c.3)

  -- A chain has no more matches than rows or columns.
  pub length-IsChain :
      (i j n m : ℕ) (ms : List Match)
      → IsChain xs ys blank i j n m ms
      → (i + length ms ≤ n) × (j + length ms ≤ m)
  length-IsChain i j n m [] c = omega arith
  length-IsChain i j n m ((a, b, d) ∷ rest) c =
      omega (arith, length-IsChain (suc a) (suc b) n m rest c.3)

  pub backtrack-IsChain :
      (directions : List ℕ) (scores : List ℤ) (columns i j n m : ℕ) (path : List PathStep)
      → IsChain xs ys blank i j n m (matches path)
      → IsChain xs ys blank 0 0 n m
          (matches (backtrack directions scores columns xs ys blank i j path))
  unfolding backtrack matches
  backtrack-IsChain directions scores columns zero j n m path c =
      IsChain-weaken 0 0 0 j n m (matches path) (omega arith) (omega arith) c
  backtrack-IsChain directions scores columns (suc i) zero n m path c =
      IsChain-weaken 0 0 (suc i) 0 n m (matches path) (omega arith) (omega arith) c
  backtrack-IsChain directions scores columns (suc i) (suc j) n m path c =
      let back : ℕ → ℕ → List PathStep → List PathStep =
        backtrack directions scores columns xs ys blank in
      let P : List PathStep → Type 0 = λ p. IsChain xs ys blank 0 0 n m (matches p) in
      let stop : P path =
        IsChain-weaken 0 0 (suc i) (suc j) n m (matches path) (omega arith) (omega arith) c in
      let distance : ℕ = pair_distance_bps (get_or xs i blank) (get_or ys j blank) in
      let diagonal : P (back i j (paired i j distance ∷ path)) =
        backtrack-IsChain directions scores columns i j n m (paired i j distance ∷ path)
          (omega arith, omega arith, refl, c) in
      let up : P (back i (suc j) (gap ∷ path)) =
        backtrack-IsChain directions scores columns i (suc j) n m (gap ∷ path) (
          IsChain-weaken i (suc j) (suc i) (suc j) n m (matches path) (omega arith) (omega arith)
            c) in
      let left : P (back (suc i) j (gap ∷ path)) =
        backtrack-IsChain directions scores columns (suc i) j n m (gap ∷ path) (
          IsChain-weaken (suc i) j (suc i) (suc j) n m (matches path) (omega arith) (omega arith)
            c) in
      let direction : ℕ = get_or directions (suc i * columns + suc j) 0 in
      if-both P (is_zero (get_or scores (suc i * columns + suc j) (pos 0))) stop (
        if-both P (direction == 1) diagonal
          (if-both P (direction == 2) up (if-both P (direction == 3) left stop)))
