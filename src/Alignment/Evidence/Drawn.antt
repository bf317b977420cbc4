-- ===== src/Alignment/Evidence/Drawn.antt =====
-- What the evidence says of a path, said without the loops that draw it.
use sooqa.Prelude.{
  ℕ, zero, suc, ◌-◌, ◌*◌, ◌%◌, ◌^◌, ◌≤◌, ◌<◌, ◌≡◌, refl, sym, ap, subst, arith, min, true, false,
  leb, Bool-cases, inl, inr, List, [], ◌∷◌, ◌++◌, length, get_or, replicate,
}
use sooqa.Prelude.Int.{ℤ, pos, sub_ℕ}
use sooqa.VideoSequence.{Sample, Fingerprint}
use sooqa.Alignment.Config.{Evidence}
use sooqa.Alignment.Backtrack.{PathStep, paired, gap, Match, matches}
use sooqa.Alignment.Evidence.{evidence_from_path, informative, is_informative, count_gaps, ends}

-- The maximal runs of gaps of a path.
pub data GapRuns : List PathStep → ℕ → Type 0 where
  no_step : GapRuns [] 0
  pair_step :
      {i j d : ℕ} {path : List PathStep} {n : ℕ} → GapRuns path n → GapRuns (paired i j d ∷ path) n
  last_run : (more : ℕ) → GapRuns (replicate (suc more) gap) 1
  run_before :
      (more i j d : ℕ) {path : List PathStep} {n : ℕ}
      → GapRuns path n
      → GapRuns (replicate (suc more) gap ++ paired i j d ∷ path) (suc n)

gaps_shift :
    (n : ℕ) (path : List PathStep) → replicate (suc n) gap ++ path ≡ replicate n gap ++ gap ∷ path
gaps_shift zero path = refl
gaps_shift (suc n) path = ap (λ xs. gap ∷ xs) (gaps_shift n path)

gaps_end : (n : ℕ) → replicate n gap ++ [] ≡ replicate n gap
gaps_end zero = refl
gaps_end (suc n) = ap (λ xs. gap ∷ xs) (gaps_end n)

-- Both at once: a path, and a path behind gaps of which the first is counted.
count_gaps-GapRuns :
    (path : List PathStep)
    → GapRuns path (count_gaps false path)
      × ((more : ℕ) → GapRuns (replicate (suc more) gap ++ path) (suc (count_gaps true path)))
unfolding count_gaps
count_gaps-GapRuns [] = (
  no_step,
  λ more. subst (λ (xs : List PathStep). GapRuns xs 1) (sym (gaps_end (suc more))) (last_run more),
)
count_gaps-GapRuns (paired i j d ∷ path) =
    let (alone, behind) = count_gaps-GapRuns path in
    (pair_step alone, λ more. run_before more i j d alone)
count_gaps-GapRuns (gap ∷ path) =
    let (alone, behind) = count_gaps-GapRuns path in
    (
      behind 0,
      λ more.
          subst (λ (xs : List PathStep). GapRuns xs (suc (count_gaps true path)))
            (gaps_shift (suc more) path) (behind (suc more)),
    )

-- A match of two samples with information, at most 8000 apart.
pub record IsInformative (xs ys : List Sample) (blank : Sample) (m : Match) : Type 0 where
  pub incoming_tells : 1000 ≤ (get_or xs m.0 blank).information_bps
  pub candidate_tells : 1000 ≤ (get_or ys m.1 blank).information_bps
  pub close : m.2 ≤ 8000

-- The list with those alone that meet the predicate.
pub data Filtered (P : Match → Type 0) : List Match → List Match → Type 0 where
  empty : Filtered P [] []
  kept :
      {m : Match} {ms rest : List Match} → P m → Filtered P ms rest → Filtered P (m ∷ ms) (m ∷ rest)
  left_out :
      {m : Match} {ms rest : List Match} → ¬ P m → Filtered P ms rest → Filtered P (m ∷ ms) rest

informative-Filtered :
    (xs ys : List Sample) (blank : Sample) (ms : List Match)
    → Filtered (IsInformative xs ys blank) ms (informative xs ys blank ms)
unfolding informative
informative-Filtered xs ys blank [] = empty
informative-Filtered xs ys blank ((i, j, d) ∷ ms) =
    elim (Bool-cases (is_informative xs ys blank (i, j, d))) [
      | inl e ↦ rw e (
          kept
            (record {
              incoming_tells = ground arith;
              candidate_tells = ground arith;
              close = ground arith;
            })
            (informative-Filtered xs ys blank ms))
      | inr e ↦ rw e (
          left_out
            (λ h.
              let a = h.incoming_tells in
              let b = h.candidate_tells in let c = h.close in absurd (ground arith))
            (informative-Filtered xs ys blank ms))
    ]

-- The time of a sample, in milliseconds, up to the largest `i64`.
abbrev pub time_of : Fingerprint → ℕ → ℕ
time_of f index = min (f.interval_ms * index) (2 ^ 63 - 1)

-- What the first and the last of the matches give. An offset is the candidate's time less the incoming one's.
pub data Bounds (incoming candidate : Fingerprint) : List Match → Evidence → Type 0 where
  unmatched :
      {e : Evidence}
      → e.aligned_offset_ms ≡ pos 0
      → e.unmatched_incoming_prefix ≡ min (length incoming.samples) 65535
      → e.unmatched_candidate_prefix ≡ min (length candidate.samples) 65535
      → Bounds incoming candidate [] e
  bounded :
      {e : Evidence} {i j d : ℕ} {ms : List Match}
      → (i < length incoming.samples
          → j < length candidate.samples
          → e.aligned_offset_ms ≡ sub_ℕ (time_of candidate j) (time_of incoming i))
      → e.unmatched_incoming_prefix ≡ min i 65535
      → e.unmatched_candidate_prefix ≡ min j 65535
      → Bounds incoming candidate ((i, j, d) ∷ ms) e

-- The evidence of a path: the matches that tell something, the runs of gaps, and where the matches begin.
pub record Drawn (incoming candidate : Fingerprint) (blank : Sample) (path : List PathStep)
    (e : Evidence) : Type 0 where
  pub telling : List Match
  pub telling_filtered :
      Filtered (IsInformative incoming.samples candidate.samples blank) (matches path) telling
  pub telling_count : e.informative_matched_samples ≡ min (length telling) 65535
  pub runs : ℕ
  pub runs_counted : GapRuns path runs
  pub runs_kept : e.gap_count ≡ runs % 2 ^ 16
  pub bounds : Bounds incoming candidate (matches path) e

ends-Bounds :
    (incoming candidate : Fingerprint) (blank : Sample) (path : List PathStep) (score : ℤ)
    (ms : List Match)
    → matches path ≡ ms
    → Bounds incoming candidate ms (evidence_from_path incoming candidate blank path score)
unfolding evidence_from_path ends
ends-Bounds incoming candidate blank path score [] e = unmatched (rw e refl) (rw e refl) (rw e refl)
ends-Bounds incoming candidate blank path score ((i, j, d) ∷ ms) e =
    bounded
      (λ (hi : i < length incoming.samples) (hj : j < length candidate.samples).
        let in_incoming : leb (length incoming.samples) i ≡ false = ground arith in
        let in_candidate : leb (length candidate.samples) j ≡ false = ground arith in
        rw (e, in_incoming, in_candidate) refl)
      (rw e refl) (rw e refl)

pub evidence_from_path-Drawn :
    (incoming candidate : Fingerprint) (blank : Sample) (path : List PathStep) (score : ℤ)
    → Drawn incoming candidate blank path (evidence_from_path incoming candidate blank path score)
unfolding evidence_from_path
evidence_from_path-Drawn incoming candidate blank path score = record {
  telling = informative incoming.samples candidate.samples blank (matches path);
  telling_filtered = informative-Filtered incoming.samples candidate.samples blank (matches path);
  telling_count = refl;
  runs = count_gaps false path;
  runs_counted = (count_gaps-GapRuns path).0;
  runs_kept = refl;
  bounds = ends-Bounds incoming candidate blank path score (matches path) refl;
}
