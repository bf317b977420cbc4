-- ===== src/Alignment/Evidence/Bounds.antt =====
-- Lemmas on the parts of the evidence: coverage, percentiles, runs and the informative matches.
use sooqa.Prelude.{
  ℕ, zero, suc, ◌+◌, ◌*◌, ◌/◌, ◌≤◌, ◌<◌, ◌≡◌, refl, ap, ◌∙◌, arith, min, max, ◌||◌, true, List, [],
  ◌∷◌, map, Option, length, get_elem?, leb, ◌==◌, if◌then◌else◌, if-both, Bool-cases, Option-cases,
  All, All-get_elem?, get_elem?-some, div_ceil,
}
use sooqa.Prelude.Int.{ℤ, leb_ℤ, pos}
use sooqa.VideoSequence.{Sample}
use sooqa.Alignment.Backtrack.{Match}
use sooqa.Alignment.Evidence.{
  basis_points, insert, sort, percentile, unwrap_or, run_loop, longest_run, consecutive,
  alignment_score_bps, informative, is_informative, distance_of,
}
use sooqa.Prelude.{inl, inr}
use native.Mathlib.Nat.{div-mul-le_self, mul-le-mul_left, mul-le-mul_right}

pub basis_points_le : (k n : ℕ) → basis_points k n ≤ 10000
unfolding basis_points
basis_points_le k n = if-both (λ x. x ≤ 10000) (n == 0) (omega arith) (omega arith)

-- A coverage that reaches a share of the samples does so before the rounding.
pub basis_points-share : (k n c : ℕ) → k ≤ n → c ≤ basis_points k n → c * n ≤ 10000 * k
unfolding basis_points
basis_points-share k zero c hk h = omega arith
basis_points-share k (suc n) c hk h =
    let below : min k (suc n) * 10000 / suc n * suc n ≤ min k (suc n) * 10000 =
      div-mul-le_self (min k (suc n) * 10000) (suc n) in
    let e : min k (suc n) ≡ k = omega arith in
    let hc : c ≤ min k (suc n) * 10000 / suc n = ground arith in
    let scaled : c * suc n ≤ min k (suc n) * 10000 / suc n * suc n = mul-le-mul_right (suc n) hc in
    omega arith

insert-All : (P : ℕ → Type 0) (x : ℕ) (ys : List ℕ) → P x → All P ys → All P (insert x ys)
unfolding insert
insert-All P x [] hx hy = (hx, tt)
insert-All P x (y ∷ ys) hx hy = if-both (All P) (leb x y) (hx, hy) (hy.0, insert-All P x ys hx hy.1)

sort-All : (P : ℕ → Type 0) (xs : List ℕ) → All P xs → All P (sort xs)
unfolding sort
sort-All P [] h = tt
sort-All P (x ∷ xs) h = insert-All P x (sort xs) h.0 (sort-All P xs h.1)

length-insert : (x : ℕ) (ys : List ℕ) → length (insert x ys) ≡ suc (length ys)
unfolding insert
length-insert x [] = refl
length-insert x (y ∷ ys) =
    if-both (λ l. length l ≡ suc (suc (length ys))) (leb x y) {x = x ∷ y ∷ ys} {y = y ∷ insert x ys}
      refl (ap suc (length-insert x ys))

length-sort : (xs : List ℕ) → length (sort xs) ≡ length xs
unfolding sort
length-sort [] = refl
length-sort (x ∷ xs) = length-insert x (sort xs) ∙ ap suc (length-sort xs)

-- A percentile of distances has what all of them have.
pub percentile-All :
    (P : ℕ → Type 0) (xs : List ℕ) (p d : ℕ) → All P xs → P d → P (unwrap_or (percentile xs p) d)
unfolding percentile
percentile-All P [] p d h hd = hd
percentile-All P (x ∷ xs) p d h hd =
    let all : All P (sort (x ∷ xs)) = sort-All P (x ∷ xs) h in
    elim (Option-cases (get_elem? (sort (x ∷ xs)) (div_ceil (length xs * p) 100))) [
      | inl e ↦ rw e hd
      | inr (y, e) ↦ rw e (All-get_elem? P (sort (x ∷ xs)) (div_ceil (length xs * p) 100) y all e)
    ]

-- Up to the hundredth percentile, one of the distances is taken.
pub percentile-All_some :
    (P : ℕ → Type 0) (xs : List ℕ) (p d : ℕ)
    → All P xs
    → 0 < length xs
    → p ≤ 100
    → P (unwrap_or (percentile xs p) d)
unfolding percentile
percentile-All_some P [] p d hx h hp = absurd (omega arith)
percentile-All_some P (x ∷ xs) p d hx h hp =
    let scaled : length xs * p ≤ length xs * 100 = mul-le-mul_left (length xs) hp in
    let i : ℕ = div_ceil (length xs * p) 100 in
    let (y, e) = get_elem?-some (sort (x ∷ xs)) i (omega (arith, length-sort (x ∷ xs))) in
    rw e (All-get_elem? P (sort (x ∷ xs)) i y (sort-All P (x ∷ xs) hx) e)

pub length-distances : (ms : List Match) → length (map distance_of ms) ≡ length ms
length-distances [] = refl
length-distances (m ∷ ms) = ap suc (length-distances ms)

-- A run has at most one step less than the matches.
run_loop_bound :
    (m : Match) (ms : List Match) (current longest n : ℕ)
    → current + length ms ≤ n
    → longest ≤ n
    → run_loop m ms current longest ≤ n
unfolding run_loop
run_loop_bound m [] current longest n h hl = hl
run_loop_bound m (m' ∷ ms) current longest n h hl =
    let next : (if consecutive m m' then current + 1 else 0) ≤ current + 1 =
      if-both (λ x. x ≤ current + 1) (consecutive m m') (omega arith) (omega arith) in
    run_loop_bound m' ms (if consecutive m m' then current + 1 else 0)
      (max longest (if consecutive m m' then current + 1 else 0)) n (omega arith) (omega arith)

pub longest_run_bound : (ms : List Match) → longest_run ms ≤ length ms
unfolding longest_run
longest_run_bound [] = omega arith
longest_run_bound (m ∷ ms) =
    omega (arith, run_loop_bound m ms 0 0 (length ms) (omega arith) (omega arith))

pub alignment_score_bps_le :
    (score : ℤ) (count : ℕ) (median : Option ℕ) (coverage : ℕ)
    → alignment_score_bps score count median coverage ≤ 10000
unfolding alignment_score_bps
alignment_score_bps_le score count median coverage =
    if-both (λ x. x ≤ 10000) (count == 0 || leb_ℤ score (pos 0)) (omega arith) (omega arith)

module _ (xs ys : List Sample) (blank : Sample) where
  pub length-informative : (ms : List Match) → length (informative xs ys blank ms) ≤ length ms
  unfolding informative
  length-informative [] = omega arith
  length-informative (m ∷ ms) =
      let kept : List Match = informative xs ys blank ms in
      if-both (λ l. length l ≤ suc (length ms)) (is_informative xs ys blank m) {x = m ∷ kept}
        {y = kept} (omega (arith, length-informative ms)) (omega (arith, length-informative ms))

  informative_distance : (m : Match) → is_informative xs ys blank m ≡ true → distance_of m ≤ 8000
  informative_distance (i, j, d) h = ground arith

  pub informative-distances :
      (ms : List Match) → All (λ d. d ≤ 8000) (map distance_of (informative xs ys blank ms))
  unfolding informative
  informative-distances [] = tt
  informative-distances (m ∷ ms) = elim (Bool-cases (is_informative xs ys blank m)) [
    | inl e ↦ rw e (informative_distance m e, informative-distances ms)
    | inr e ↦ rw e (informative-distances ms)
  ]
