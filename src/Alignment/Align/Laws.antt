-- ===== src/Alignment/Align/Laws.antt =====
-- What a successful alignment promises, and when there is one.
use sooqa.Prelude.{◌*◌, ◌^◌, ◌≤◌, ◌<◌, ◌≡◌, refl, sym, ◌∙◌, ◌↔◌, arith, List, length}
use sooqa.Prelude.{ok}
use sooqa.VideoSequence.{Fingerprint}
use sooqa.Alignment.Config.{Config, validate, strong_duplicate, not_duplicate}
use sooqa.Alignment.Config.Classes.{Strong, classified-Strong, classified_unmatched}
use sooqa.Alignment.Table.{Table, fill}
use sooqa.Alignment.Backtrack.{Match}
use sooqa.Alignment.Backtrack.Chain.{length-IsChain}
use sooqa.Alignment.Evidence.Bounds.{basis_points-share}
use sooqa.Alignment.Evidence.Drawn.{Drawn, evidence_from_path-Drawn}
use sooqa.Alignment.Align.{Alignment, blank, path_of, align_video_sequences}
use sooqa.Alignment.Align.Path.{Backed, evidence_from_path-Backed, matches_of, matches_of-IsChain}
use sooqa.Alignment.Align.Guards.{Accepted, accepted, guards_pass}

-- The evidence of a successful alignment stands on a list of matches that is a chain inside both
-- fingerprints.
pub align-Backed :
    (incoming candidate : Fingerprint) (config : Config) (r : Alignment)
    → align_video_sequences incoming candidate config ≡ ok r
    → (ms : List Match) × Backed incoming candidate ms r.evidence
align-Backed incoming candidate config r h =
    let a = accepted incoming candidate config r h in
    let t : Table = fill incoming.samples candidate.samples blank config.gap_penalty_bps in
    (
      matches_of incoming candidate config,
      rw a.1 (
          evidence_from_path-Backed incoming candidate (path_of incoming candidate t) t.best.score
            (matches_of-IsChain incoming candidate config)),
    )

-- The evidence of a successful alignment is drawn from the path back through the table. The matches of the path are
-- a chain inside both fingerprints, each with the distance of its samples; the coverages are those of their number, and
-- the informative ones are exactly those whose samples both carry information and are at most 8000 apart; the
-- gaps are the maximal runs of gap steps, modulo 2 ^ 16; the prefixes and the offset, the candidate's time less the
-- incoming one's, are those of the first match. The run is at most the number of matches, percentiles and score are
-- at most 10000, and with an informative match both percentiles are at most 8000.
pub align-Drawn :
    (incoming candidate : Fingerprint) (config : Config) (r : Alignment)
    → align_video_sequences incoming candidate config ≡ ok r
    → Backed incoming candidate (matches_of incoming candidate config) r.evidence
      × Drawn incoming candidate blank
          (path_of incoming candidate
            (fill incoming.samples candidate.samples blank config.gap_penalty_bps))
          r.evidence
align-Drawn incoming candidate config r h =
    let a = accepted incoming candidate config r h in
    let t : Table = fill incoming.samples candidate.samples blank config.gap_penalty_bps in
    (
      rw a.1 (
          evidence_from_path-Backed incoming candidate (path_of incoming candidate t) t.best.score
            (matches_of-IsChain incoming candidate config)),
      rw a.1 (
          evidence_from_path-Drawn incoming candidate blank (path_of incoming candidate t)
            t.best.score),
    )

-- An alignment that is classified a strong duplicate meets every threshold of the configuration, and
-- its evidence stands on a chain of matches that makes up the configured share, in basis points and
-- before any rounding, of the samples of each fingerprint.
pub strong_duplicate-shares :
    (incoming candidate : Fingerprint) (config : Config) (r : Alignment)
    → align_video_sequences incoming candidate config ≡ ok r
    → r.classification ≡ strong_duplicate
    → Strong r.evidence config
      × ((ms : List Match) × Backed incoming candidate ms r.evidence
          × (config.min_incoming_coverage_bps * length incoming.samples ≤ 10000 * length ms)
          × (config.min_candidate_coverage_bps * length candidate.samples ≤ 10000 * length ms))
strong_duplicate-shares incoming candidate config r h hc =
    let (ms, b) = align-Backed incoming candidate config r h in
    let met : Strong r.evidence config =
      classified-Strong r.evidence config (sym (accepted incoming candidate config r h).2 ∙ hc) in
    let sizes = length-IsChain incoming.samples candidate.samples blank 0 0 _ _ ms b.chain in
    (
      met,
      (
        ms,
        b,
        basis_points-share (length ms) (length incoming.samples) config.min_incoming_coverage_bps
            (omega arith) (omega (arith, met.incoming_met, b.incoming_share)),
        basis_points-share (length ms) (length candidate.samples) config.min_candidate_coverage_bps
            (omega arith) (omega (arith, met.candidate_met, b.candidate_share)),
      ),
    )

-- A successful alignment is classified as no duplicate exactly when no match is informative.
pub not_duplicate_iff :
    (incoming candidate : Fingerprint) (config : Config) (r : Alignment)
    → align_video_sequences incoming candidate config ≡ ok r
    → (r.classification ≡ not_duplicate) ↔ (r.evidence.informative_matched_samples ≡ 0)
not_duplicate_iff incoming candidate config r h =
    let (_, _, hc, hv) = accepted incoming candidate config r h in
    rw hc (classified_unmatched r.evidence config hv)

-- With a cell limit that fits 64 bits, there is an alignment exactly when the configuration is valid,
-- neither sequence is empty and the table of both stays within the limit.
pub align_ok_iff :
    (incoming candidate : Fingerprint) (config : Config)
    → config.max_cells < 2 ^ 64
    → ((r : Alignment) × (align_video_sequences incoming candidate config ≡ ok r))
      ↔ ((validate config ≡ ok tt) × Accepted incoming candidate config)
unfolding align_video_sequences Accepted
align_ok_iff incoming candidate config hf = (
  (λ (r, h). let a = accepted incoming candidate config r h in (a.3, a.0)),
  λ (hv, a).
      let g =
        guards_pass (length incoming.samples) (length candidate.samples) config.max_cells a.0 a.1
          a.2 hf in
      rw (hv, g.0, g.1, g.2) (_, refl),
)
