-- ===== src/Alignment/Evidence.antt =====
-- The evidence that `evidence_from_path` draws from a path.
pub mod Bounds
pub mod Drawn
use sooqa.Prelude.{
  ℕ, zero, suc, ◌+◌, ◌-◌, ◌*◌, ◌/◌, ◌%◌, ◌^◌, min, max, Bool, true, false, ◌&&◌, ◌||◌, leb, ltb,
  ◌==◌, if◌then◌else◌, div_ceil, List, [], ◌∷◌, map, Option, none, some, length, get_elem?, get_or,
}
use sooqa.Prelude.Int.{ℤ, pos, negsuc, pos_part, sub_ℕ, leb_ℤ}
use sooqa.VideoSequence.{Sample, Fingerprint}
use sooqa.Alignment.Config.{Evidence}
use sooqa.Alignment.Score.{info_threshold_bps}
use sooqa.Alignment.Backtrack.{PathStep, paired, gap, Match, matches}

abbrev pub u16_max : ℕ
u16_max = 65535

-- `x.min(u16::MAX as usize) as u16`
abbrev pub to_u16 : ℕ → ℕ
to_u16 x = min x u16_max

unfoldable pub basis_points : ℕ → ℕ → ℕ
basis_points numerator denominator =
    if denominator == 0 then 0 else min (min numerator denominator * 10000 / denominator) 10000

-- `sort_unstable` on numbers.
unfoldable pub insert : ℕ → List ℕ → List ℕ
insert x [] = x ∷ []
insert x (y ∷ ys) = if leb x y then x ∷ y ∷ ys else y ∷ insert x ys

unfoldable pub sort : List ℕ → List ℕ
sort [] = []
sort (x ∷ xs) = insert x (sort xs)

unfoldable pub percentile : List ℕ → ℕ → Option ℕ
percentile [] p = none
percentile (x ∷ xs) p = get_elem? (sort (x ∷ xs)) (div_ceil (length xs * p) 100)

abbrev pub informative_distance_limit_bps : ℕ
informative_distance_limit_bps = 3500

abbrev pub consecutive : Match → Match → Bool
consecutive (i, j, d) (i', j', d') =
    i' == i + 1
    && j' == j + 1
    && leb d informative_distance_limit_bps
    && leb d' informative_distance_limit_bps

-- The loop over `matches.windows(2)`: the last match seen stands first.
unfoldable pub run_loop : Match → List Match → ℕ → ℕ → ℕ
run_loop m [] current longest = longest
run_loop m (m' ∷ rest) current longest =
    let current' = if consecutive m m' then current + 1 else 0 in
    run_loop m' rest current' (max longest current')

unfoldable pub longest_run : List Match → ℕ
unfolding run_loop
longest_run [] = 0
longest_run (m ∷ rest) = to_u16 (run_loop m rest 0 0 + 1)

abbrev pub unwrap_or : Option ℕ → ℕ → ℕ
unwrap_or none d = d
unwrap_or (some x) d = x

unfoldable pub alignment_score_bps : ℤ → ℕ → Option ℕ → ℕ → ℕ
alignment_score_bps score informative_count median coverage =
    if informative_count == 0 || leb_ℤ score (pos 0)
    then 0
    else min
        (min (pos_part score) 10000 * 4 / 10
          + (10000 - unwrap_or median 10000) * 4 / 10
          + coverage * 2 / 10)
        10000

abbrev pub is_informative : List Sample → List Sample → Sample → Match → Bool
is_informative incoming candidate blank (i, j, d) =
    leb info_threshold_bps (get_or incoming i blank).information_bps
    && leb info_threshold_bps (get_or candidate j blank).information_bps
    && leb d 8000

unfoldable pub informative : List Sample → List Sample → Sample → List Match → List Match
informative incoming candidate blank [] = []
informative incoming candidate blank (m ∷ rest) =
    let kept = informative incoming candidate blank rest in
    if is_informative incoming candidate blank m then m ∷ kept else kept

abbrev pub distance_of : Match → ℕ
distance_of (i, j, d) = d

-- The gaps that no gap stands before.
unfoldable pub count_gaps : Bool → List PathStep → ℕ
count_gaps after_gap [] = 0
count_gaps after_gap (paired i j d ∷ path) = count_gaps false path
count_gaps true (gap ∷ path) = count_gaps true path
count_gaps false (gap ∷ path) = suc (count_gaps true path)

abbrev pub last_match : Match → List Match → Match
last_match m [] = m
last_match m (m' ∷ rest) = last_match m' rest

-- `sample_timestamp_ms(index).unwrap_or(0)`, cut at `i64::MAX`.
abbrev pub timestamp_or : Fingerprint → ℕ → ℕ
timestamp_or f index =
    min (if leb (length f.samples) index then 0 else f.interval_ms * index) (2 ^ 63 - 1)

-- The fields that depend on the first and last match.
pub record Ends : Type 0 where
  pub offset_ms : ℤ
  pub incoming_prefix : ℕ
  pub incoming_suffix : ℕ
  pub candidate_prefix : ℕ
  pub candidate_suffix : ℕ

unfoldable pub ends : Fingerprint → Fingerprint → List Match → Ends
ends incoming candidate [] = record {
  offset_ms = pos 0;
  incoming_prefix = to_u16 (length incoming.samples);
  incoming_suffix = to_u16 (length incoming.samples);
  candidate_prefix = to_u16 (length candidate.samples);
  candidate_suffix = to_u16 (length candidate.samples);
}
ends incoming candidate ((i, j, d) ∷ rest) =
    let (i', j', d') = last_match (i, j, d) rest in
    record {
      offset_ms = sub_ℕ (timestamp_or candidate j) (timestamp_or incoming i);
      incoming_prefix = to_u16 i;
      incoming_suffix = to_u16 (length incoming.samples - (i' + 1));
      candidate_prefix = to_u16 j;
      candidate_suffix = to_u16 (length candidate.samples - (j' + 1));
    }

unfoldable pub evidence_from_path :
    Fingerprint → Fingerprint → Sample → List PathStep → ℤ → Evidence
evidence_from_path incoming candidate blank path score =
    let ms = matches path in
    let kept = informative incoming.samples candidate.samples blank ms in
    let distances = map distance_of kept in
    let e = ends incoming candidate ms in
    let incoming_coverage = basis_points (length ms) (length incoming.samples) in
    let candidate_coverage = basis_points (length ms) (length candidate.samples) in
    record {
      aligned_offset_ms = e.offset_ms;
      informative_matched_samples = to_u16 (length kept);
      incoming_coverage_bps = incoming_coverage;
      candidate_coverage_bps = candidate_coverage;
      median_distance_bps = unwrap_or (percentile distances 50) 10000;
      high_percentile_distance_bps = unwrap_or (percentile distances 95) 10000;
      longest_temporally_consistent_run = longest_run ms;
      unmatched_incoming_prefix = e.incoming_prefix;
      unmatched_incoming_suffix = e.incoming_suffix;
      unmatched_candidate_prefix = e.candidate_prefix;
      unmatched_candidate_suffix = e.candidate_suffix;
      gap_count = count_gaps false path % 2 ^ 16;
      score_bps =
          alignment_score_bps score (length kept) (percentile distances 50)
            (min incoming_coverage candidate_coverage);
    }
