-- ===== src/Alignment/Align/Path.antt =====
-- The best cell lies inside the table, so the matches of the path from it are a chain, and the
-- evidence drawn from them stands on it.
use sooqa.Prelude.{
  ℕ, zero, suc, ◌+◌, ◌≤◌, ◌<◌, ◌≡◌, refl, arith, if-both, List, [], map, length, All, All-imp,
}
use sooqa.Prelude.Int.{ℤ, ltb_ℤ}
use sooqa.VideoSequence.{Sample, Fingerprint}
use sooqa.Alignment.Config.{Config, Evidence}
use sooqa.Alignment.Table.{
  Table, fill, fill_rows, fill_row, fill_cell, keep_best, Best, empty_table, columns,
}
use sooqa.Alignment.Backtrack.{Match, PathStep, matches}
use sooqa.Alignment.Backtrack.Chain.{IsChain, backtrack-IsChain}
use sooqa.Alignment.Evidence.{
  evidence_from_path, basis_points, informative, percentile, unwrap_or, distance_of,
}
use sooqa.Alignment.Evidence.Bounds.{
  percentile-All, percentile-All_some, length-distances, longest_run_bound, alignment_score_bps_le,
  length-informative, informative-distances,
}
use sooqa.Alignment.Align.{blank, path_of}

module _ (xs ys : List Sample) (gap : ℕ) where
  BestFits : Table → Type 0
  BestFits t = (t.best.incoming ≤ length xs) × (t.best.candidate ≤ length ys)

  keep_best_fits :
      (best : Best) (i j : ℕ) (score : ℤ)
      → i ≤ length xs
      → j ≤ length ys
      → (best.incoming ≤ length xs) × (best.candidate ≤ length ys)
      → ((keep_best best i j score).incoming ≤ length xs)
        × ((keep_best best i j score).candidate ≤ length ys)
  keep_best_fits best i j score hi hj h =
      if-both (λ b. (b.incoming ≤ length xs) × (b.candidate ≤ length ys)) (ltb_ℤ best.score score)
        {x = record { incoming = i; candidate = j; score = score }} {y = best} (hi, hj) h

  fill_cell_fits :
      (i j : ℕ) (t : Table)
      → i < length xs
      → j < length ys
      → BestFits t
      → BestFits (fill_cell xs ys blank gap i j t)
  unfolding fill_cell BestFits
  fill_cell_fits i j t hi hj h =
      keep_best_fits t.best (i + 1) (j + 1) _ (omega arith) (omega arith) h

  fill_row_fits :
      (rounds i j : ℕ) (t : Table)
      → i < length xs
      → j + rounds ≤ length ys
      → BestFits t
      → BestFits (fill_row xs ys blank gap rounds i j t)
  unfolding fill_row
  fill_row_fits zero i j t hi hj h = h
  fill_row_fits (suc rounds) i j t hi hj h =
      fill_row_fits rounds i (j + 1) (fill_cell xs ys blank gap i j t) hi (omega arith)
        (fill_cell_fits i j t hi (omega arith) h)

  fill_rows_fits :
      (rounds i : ℕ) (t : Table)
      → i + rounds ≤ length xs
      → BestFits t
      → BestFits (fill_rows xs ys blank gap rounds i t)
  unfolding fill_rows
  fill_rows_fits zero i t hi h = h
  fill_rows_fits (suc rounds) i t hi h =
      fill_rows_fits rounds (i + 1) (fill_row xs ys blank gap (length ys) i 0 t) (omega arith)
        (fill_row_fits (length ys) i 0 t (omega arith) (omega arith) h)

  fill_fits : BestFits (fill xs ys blank gap)
  unfolding fill empty_table BestFits
  fill_fits =
      fill_rows_fits (length xs) 0 (empty_table xs ys blank gap) (omega arith)
        (omega arith, omega arith)

-- The matches of the path that the alignment follows.
abbrev pub matches_of : Fingerprint → Fingerprint → Config → List Match
matches_of incoming candidate config = matches (
    path_of incoming candidate
      (fill incoming.samples candidate.samples blank config.gap_penalty_bps))

pub matches_of-IsChain :
    (incoming candidate : Fingerprint) (config : Config)
    → IsChain incoming.samples candidate.samples blank 0 0
        (length incoming.samples)
        (length candidate.samples)
        (matches_of incoming candidate config)
unfolding BestFits matches
matches_of-IsChain incoming candidate config =
    let t : Table = fill incoming.samples candidate.samples blank config.gap_penalty_bps in
    let fits : BestFits incoming.samples candidate.samples config.gap_penalty_bps t =
      fill_fits incoming.samples candidate.samples config.gap_penalty_bps in
    backtrack-IsChain incoming.samples candidate.samples blank t.directions t.scores
      (columns incoming.samples candidate.samples blank 0) t.best.incoming t.best.candidate
      (length incoming.samples) (length candidate.samples) [] fits

-- What evidence on these matches says: they are a chain inside both fingerprints, the coverages are
-- their number's, the counts stay below it, and the shares are basis points.
pub record Backed (incoming candidate : Fingerprint) (ms : List Match) (e : Evidence) : Type 0 where
  pub chain :
      IsChain incoming.samples candidate.samples blank 0 0
        (length incoming.samples)
        (length candidate.samples)
        ms
  pub incoming_share : e.incoming_coverage_bps ≡ basis_points (length ms) (length incoming.samples)
  pub candidate_share :
      e.candidate_coverage_bps ≡ basis_points (length ms) (length candidate.samples)
  pub informative_bound : e.informative_matched_samples ≤ length ms
  pub run_bound : e.longest_temporally_consistent_run ≤ length ms
  pub median_bound : e.median_distance_bps ≤ 10000
  pub high_percentile_bound : e.high_percentile_distance_bps ≤ 10000
  pub score_bound : e.score_bps ≤ 10000
  pub distances_bound :
      0 < e.informative_matched_samples
      → (e.median_distance_bps ≤ 8000) × (e.high_percentile_distance_bps ≤ 8000)

pub evidence_from_path-Backed :
    (incoming candidate : Fingerprint) (path : List PathStep) (score : ℤ)
    → IsChain incoming.samples candidate.samples blank 0 0
        (length incoming.samples)
        (length candidate.samples)
        (matches path)
    → Backed incoming candidate
        (matches path)
        (evidence_from_path incoming candidate blank path score)
unfolding evidence_from_path
evidence_from_path-Backed incoming candidate path score c =
    let ms : List Match = matches path in
    let kept : List Match = informative incoming.samples candidate.samples blank ms in
    let fewer : length kept ≤ length ms =
      length-informative incoming.samples candidate.samples blank ms in
    let close : All (λ (d : ℕ). d ≤ 8000) (map distance_of kept) =
      informative-distances incoming.samples candidate.samples blank ms in
    let at_most : (p : ℕ) → unwrap_or (percentile (map distance_of kept) p) 10000 ≤ 10000 = λ p.
      percentile-All (λ d. d ≤ 10000) (map distance_of kept) p 10000
        (All-imp (map distance_of kept) (λ d hd. omega arith) close) (omega arith) in
    let near : (p : ℕ)
        → p ≤ 100
        → 0 < length kept
        → unwrap_or (percentile (map distance_of kept) p) 10000 ≤ 8000 =
      λ p hp some_kept.
        percentile-All_some (λ (d : ℕ). d ≤ 8000) (map distance_of kept) p 10000 close
          (omega (arith, length-distances kept)) hp in
    record {
      chain = c;
      incoming_share = refl;
      candidate_share = refl;
      informative_bound = omega arith;
      run_bound = longest_run_bound ms;
      median_bound = at_most 50;
      high_percentile_bound = at_most 95;
      score_bound = alignment_score_bps_le _ _ _ _;
      distances_bound =
          λ some_kept. (near 50 (omega arith) (omega arith), near 95 (omega arith) (omega arith));
    }
