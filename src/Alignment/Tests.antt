-- ===== src/Alignment/Tests.antt =====
-- Runs of the alignment, and its theorems at concrete inputs.
use sooqa.Prelude.{ℕ, ◌+◌, ◌*◌, ◌≤◌, ◌≡◌, ◌↔◌, refl, arith, List, [], ◌∷◌, length, ok, err}
use sooqa.Prelude.Int.{pos, negsuc}
use sooqa.VideoSequence.{Sample, Fingerprint}
use sooqa.VideoSequence.Defs.{video_sequence_v1}
use sooqa.Alignment.Config.{
  Config, default, validate, classify, strong_duplicate, not_duplicate, empty_sequence,
}
use sooqa.Alignment.Config.Classes.{Strong}
use sooqa.Alignment.Score.{count_ones, pair_distance_bps, pair_score}
use sooqa.Alignment.Table.Cell.{Filled, fill_cell-Filled}
use sooqa.Alignment.Table.{Table, choose, fill_cell, fill_row, fill_rows, empty_table, fill}
use sooqa.Alignment.Backtrack.{Match, backtrack, matches}
use sooqa.Alignment.Evidence.{
  basis_points, insert, sort, percentile, run_loop, longest_run, alignment_score_bps, informative,
  count_gaps, ends, evidence_from_path,
}
use sooqa.Alignment.Align.{path_of, blank, Alignment, align_video_sequences}
use sooqa.Alignment.Align.Path.{Backed, matches_of}
use sooqa.Alignment.Evidence.Drawn.{Drawn}
use sooqa.Alignment.Align.Guards.{Accepted}
use sooqa.Alignment.Align.Laws.{
  align-Drawn, strong_duplicate-shares, not_duplicate_iff, align_ok_iff,
}

abbrev sample : ℕ → Sample
sample hash = record {
  phash = hash;
  dhash = hash + 5;
  mean_luma = 100;
  mean_chroma_u = pos 3;
  mean_chroma_v = negsuc 2;
  information_bps = 9000;
  transition_bps = 0;
}

abbrev short : Fingerprint
short = record {
  version = video_sequence_v1;
  duration_ms = 900;
  interval_ms = 500;
  samples = sample 0x0f0f0f0f ∷ sample 0xffff0000ffff ∷ [];
}

abbrev empty_sequence_of : Fingerprint
empty_sequence_of = record short { samples = [] }

abbrev lenient : Config
lenient = record default { min_informative_matches = 2; min_longest_run = 2; min_score_bps = 5000 }

abbrev found : Alignment
found = record {
  classification = strong_duplicate;
  evidence = record {
    aligned_offset_ms = pos 0;
    informative_matched_samples = 2;
    incoming_coverage_bps = 10000;
    candidate_coverage_bps = 10000;
    median_distance_bps = 0;
    high_percentile_distance_bps = 0;
    longest_temporally_consistent_run = 2;
    unmatched_incoming_prefix = 0;
    unmatched_incoming_suffix = 0;
    unmatched_candidate_prefix = 0;
    unmatched_candidate_suffix = 0;
    gap_count = 0;
    score_bps = 9920;
  };
}

short_runs : align_video_sequences short short lenient ≡ ok found
unfolding align_video_sequences validate classify fill fill_rows fill_row fill_cell empty_table
    choose pair_score pair_distance_bps count_ones backtrack matches evidence_from_path basis_points
    sort insert percentile run_loop longest_run alignment_score_bps informative count_gaps ends
short_runs = refl

empty_refused : align_video_sequences empty_sequence_of short default ≡ err empty_sequence
unfolding align_video_sequences validate
empty_refused = refl

align-Drawn_example :
    Backed short short (matches_of short short lenient) found.evidence
    × Drawn short short blank
        (path_of short short (fill short.samples short.samples blank lenient.gap_penalty_bps))
        found.evidence
align-Drawn_example = align-Drawn short short lenient found short_runs

abbrev blank_table : Table
blank_table = empty_table short.samples short.samples blank lenient.gap_penalty_bps

fill_cell-Filled_example :
    Filled short.samples short.samples blank lenient.gap_penalty_bps 0 0 blank_table
      (fill_cell short.samples short.samples blank lenient.gap_penalty_bps 0 0 blank_table)
unfolding empty_table
fill_cell-Filled_example =
    fill_cell-Filled short.samples short.samples blank lenient.gap_penalty_bps 0 0 blank_table
      (ground arith) (ground arith)

strong_duplicate-shares_example :
    Strong found.evidence lenient
    × ((ms : List Match) × Backed short short ms found.evidence
        × (lenient.min_incoming_coverage_bps * length short.samples ≤ 10000 * length ms)
        × (lenient.min_candidate_coverage_bps * length short.samples ≤ 10000 * length ms))
strong_duplicate-shares_example = strong_duplicate-shares short short lenient found short_runs refl

not_duplicate_iff_example :
    (found.classification ≡ not_duplicate) ↔ (found.evidence.informative_matched_samples ≡ 0)
not_duplicate_iff_example = not_duplicate_iff short short lenient found short_runs

align_ok_iff_example :
    ((r : Alignment) × (align_video_sequences short short lenient ≡ ok r))
    ↔ ((validate lenient ≡ ok tt) × Accepted short short lenient)
align_ok_iff_example = align_ok_iff short short lenient (omega arith)
