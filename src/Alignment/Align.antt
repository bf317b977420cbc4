-- ===== src/Alignment/Align.antt =====
-- `align_video_sequences`.
pub mod Guards
pub mod Path
pub mod Laws
use sooqa.Prelude.{ℕ, ◌+◌, ◌*◌, ◌||◌, ltb, ◌==◌, length, List, [], Option}
use sooqa.Prelude.{Result, ok, err, ◌>>=◌, ◌>>◌, fail_if, ok_or}
use sooqa.Prelude.Int.{ℤ, pos}
use sooqa.VideoSequence.{Sample, Fingerprint}
use sooqa.VideoSequence.Defs.{checked_mul}
use sooqa.Alignment.Config.{
  Config, validate, SequenceAlignmentError, empty_sequence, too_many_cells, Evidence,
  Classification, classify,
}
use sooqa.Alignment.Table.{Table, fill, columns}
use sooqa.Alignment.Backtrack.{PathStep, backtrack}
use sooqa.Alignment.Evidence.{evidence_from_path}

pub record Alignment : Type 0 where
  pub classification : Classification
  pub evidence : Evidence

-- What an index out of range would read; none is.
abbrev pub blank : Sample
blank = record {
  phash = 0;
  dhash = 0;
  mean_luma = 0;
  mean_chroma_u = pos 0;
  mean_chroma_v = pos 0;
  information_bps = 0;
  transition_bps = 0;
}

abbrev pub path_of : Fingerprint → Fingerprint → Table → List PathStep
path_of incoming candidate t =
    backtrack t.directions t.scores (columns incoming.samples candidate.samples blank 0)
      incoming.samples candidate.samples blank t.best.incoming t.best.candidate []

-- The two versions cannot differ: their type has one value.
unfoldable pub align_video_sequences :
    Fingerprint → Fingerprint → Config → Result SequenceAlignmentError Alignment
align_video_sequences incoming candidate config = do
  validate config
  fail_if (length incoming.samples == 0 || length candidate.samples == 0) empty_sequence
  cells ←
      ok_or (checked_mul (length incoming.samples + 1) (length candidate.samples + 1))
        too_many_cells
  fail_if (ltb config.max_cells cells) too_many_cells
  let t = fill incoming.samples candidate.samples blank config.gap_penalty_bps
  let evidence =
      evidence_from_path incoming candidate blank (path_of incoming candidate t) t.best.score
  ok (record { classification = classify evidence config; evidence = evidence })
