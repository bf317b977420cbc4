-- ===== src/Alignment/Config.antt =====
-- The configuration, the evidence and its classification.
pub mod Classes
use sooqa.Prelude.{
  ℕ, ◌<◌, ◌≤◌, ◌≡◌, ◌≢◌, ◌⊎◌, Bool, true, ◌&&◌, ◌||◌, leb, ltb, ◌==◌, if◌then◌else◌, arith,
}
use sooqa.Prelude.{Result, ok, err, ◌>>=◌, ◌>>◌, fail_if}
use sooqa.Prelude.Int.{ℤ}

pub record Config : Type 0 where
  pub min_incoming_coverage_bps : ℕ
  pub min_candidate_coverage_bps : ℕ
  pub min_informative_matches : ℕ
  pub max_median_distance_bps : ℕ
  pub max_high_percentile_distance_bps : ℕ
  pub min_longest_run : ℕ
  pub max_gap_count : ℕ
  pub min_score_bps : ℕ
  pub gap_penalty_bps : ℕ
  pub max_cells : ℕ

abbrev pub default : Config
default = record {
  min_incoming_coverage_bps = 7000;
  min_candidate_coverage_bps = 7000;
  min_informative_matches = 8;
  max_median_distance_bps = 2200;
  max_high_percentile_distance_bps = 3500;
  min_longest_run = 6;
  max_gap_count = 8;
  min_score_bps = 6500;
  gap_penalty_bps = 1200;
  max_cells = 4200000;
}

pub data SequenceAlignmentError : Type 0 where
  invalid_config fingerprint_version_mismatch empty_sequence too_many_cells : SequenceAlignmentError

unfoldable pub validate : Config → Result SequenceAlignmentError (Unit {0})
validate c =
    fail_if
      (ltb 10000 c.min_incoming_coverage_bps
        || ltb 10000 c.min_candidate_coverage_bps
        || c.min_informative_matches == 0
        || ltb 10000 c.max_median_distance_bps
        || ltb 10000 c.max_high_percentile_distance_bps
        || c.min_longest_run == 0
        || ltb 10000 c.min_score_bps
        || c.gap_penalty_bps == 0
        || c.max_cells == 0)
      invalid_config

pub data Classification : Type 0 where
  strong_duplicate partial_match not_duplicate : Classification

-- `algorithm_version` is left out: its type has one value.
pub record Evidence : Type 0 where
  pub aligned_offset_ms : ℤ
  pub informative_matched_samples : ℕ
  pub incoming_coverage_bps : ℕ
  pub candidate_coverage_bps : ℕ
  pub median_distance_bps : ℕ
  pub high_percentile_distance_bps : ℕ
  pub longest_temporally_consistent_run : ℕ
  pub unmatched_incoming_prefix : ℕ
  pub unmatched_incoming_suffix : ℕ
  pub unmatched_candidate_prefix : ℕ
  pub unmatched_candidate_suffix : ℕ
  pub gap_count : ℕ
  pub score_bps : ℕ

abbrev pub is_strong : Evidence → Config → Bool
is_strong e c =
    leb c.min_informative_matches e.informative_matched_samples
    && leb c.min_incoming_coverage_bps e.incoming_coverage_bps
    && leb c.min_candidate_coverage_bps e.candidate_coverage_bps
    && leb e.median_distance_bps c.max_median_distance_bps
    && leb e.high_percentile_distance_bps c.max_high_percentile_distance_bps
    && leb c.min_longest_run e.longest_temporally_consistent_run
    && leb e.gap_count c.max_gap_count
    && leb c.min_score_bps e.score_bps

unfoldable pub classify : Evidence → Config → Classification
classify e c =
    if is_strong e c
    then strong_duplicate
    else if ltb 0 e.informative_matched_samples
    then partial_match
    else not_duplicate
