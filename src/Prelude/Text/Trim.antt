-- ===== src/Prelude/Text/Trim.antt =====
-- A trimmed text is trimmed.
use sooqa.Prelude.Lists.{length}
use sooqa.Prelude.Tests.{if-both, Bool-cases}
use sooqa.Prelude.Text.{trim, trim_start, is_whitespace}
use Prim.Native.Nat.{ℕ, suc, ◌≤◌}
use mathlib.Core.Path.{◌≡◌, refl, sym, ap, ◌∙◌, subst}
use mathlib.Core.Logic.{inl, inr}
use mathlib.Core.List.{List, [], ◌∷◌, ◌++◌, reverse, reverse-append, reverse-reverse}
use native.Mathlib.Omega.{arith}

trim_start-shorter : (cs : List ℕ) → length (trim_start cs) ≤ length cs
unfolding trim_start
trim_start-shorter [] = omega arith
trim_start-shorter (c ∷ cs) =
    if-both (λ (r : List ℕ). length r ≤ suc (length cs)) (is_whitespace c)
      (omega (arith, trim_start-shorter cs)) (omega arith)

trim_start-twice : (cs : List ℕ) → trim_start (trim_start cs) ≡ trim_start cs
unfolding trim_start
trim_start-twice [] = refl
trim_start-twice (c ∷ cs) = elim (Bool-cases (is_whitespace c)) [
  | inl e ↦ rw e (trim_start-twice cs)
  | inr e ↦ rw e (rw e refl)
]

-- What is cut off stands in front.
trim_start-suffix : (cs : List ℕ) → (front : List ℕ) × (cs ≡ front ++ trim_start cs)
unfolding trim_start
trim_start-suffix [] = ([], refl)
trim_start-suffix (c ∷ cs) = elim (Bool-cases (is_whitespace c)) [
  | inl e ↦
      let (front, same) = trim_start-suffix cs in rw e (c ∷ front, ap (λ (r : List ℕ). c ∷ r) same)
  | inr e ↦ rw e ([], refl)
]

-- The front of a text that starts with no white space does not either.
trim_start-front :
    (front back : List ℕ) → trim_start (front ++ back) ≡ front ++ back → trim_start front ≡ front
unfolding trim_start
trim_start-front [] back h = refl
trim_start-front (c ∷ front) back h = elim (Bool-cases (is_whitespace c)) [
  | inl e ↦
      let shorter : length (trim_start (front ++ back)) ≤ length (front ++ back) =
        trim_start-shorter (front ++ back) in
      let same : trim_start (front ++ back) ≡ c ∷ (front ++ back) = rw e at h in
      absurd (omega (arith, ap length same))
  | inr e ↦ rw e refl
]

pub trim-twice : (cs : List ℕ) → trim (trim cs) ≡ trim cs
unfolding trim
trim-twice cs =
    let start : List ℕ = trim_start cs in
    let (cut, same) = trim_start-suffix (reverse start) in
    let kept : List ℕ = reverse (trim_start (reverse start)) in
    let parts : start ≡ kept ++ reverse cut =
      sym (reverse-reverse start) ∙ ap reverse same ∙ reverse-append cut _ in
    let fixed : trim_start kept ≡ kept =
      trim_start-front kept (reverse cut)
        (subst (λ (x : List ℕ). trim_start x ≡ x) parts (trim_start-twice cs)) in
    rw fixed (
      ap reverse (
        ap trim_start (reverse-reverse (trim_start (reverse start)))
        ∙ trim_start-twice (reverse start)))
