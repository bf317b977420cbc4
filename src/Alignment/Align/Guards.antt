-- ===== src/Alignment/Align/Guards.antt =====
-- What the guards of `align_video_sequences` let through.
use sooqa.Prelude.{ℕ, ◌+◌, ◌*◌, ◌^◌, ◌≤◌, ◌<◌, ◌≡◌, sym, ap, ◌∙◌, arith, ◌||◌, ltb, ◌==◌, length}
use sooqa.Prelude.{ok, fail_if, ok_or, >>=-elim}
use sooqa.VideoSequence.{Fingerprint}
use sooqa.VideoSequence.Defs.{checked_mul}
use sooqa.Alignment.Config.{Config, validate, empty_sequence, too_many_cells, Evidence, classify}
use sooqa.Alignment.Table.{fill}
use sooqa.Alignment.Evidence.{evidence_from_path}
use sooqa.Alignment.Align.{Alignment, blank, path_of, align_video_sequences}

-- The configuration and the lengths that `align_video_sequences` went on from.
unfoldable pub Accepted : Fingerprint → Fingerprint → Config → Type 0
Accepted incoming candidate config =
    (0 < length incoming.samples)
    × (0 < length candidate.samples)
    × ((length incoming.samples + 1) * (length candidate.samples + 1) ≤ config.max_cells)

abbrev pub evidence_of : Fingerprint → Fingerprint → Config → Evidence
evidence_of incoming candidate config =
    let t = fill incoming.samples candidate.samples blank config.gap_penalty_bps in
    evidence_from_path incoming candidate blank (path_of incoming candidate t) t.best.score

guard_lengths :
    (n m : ℕ) {u : Unit {0}} → fail_if (n == 0 || m == 0) empty_sequence ≡ ok u → (0 < n) × (0 < m)
guard_lengths n m h = ground arith

guard_cells :
    (a b limit cells : ℕ) {u : Unit {0}}
    → ok_or (checked_mul a b) too_many_cells ≡ ok cells
    → fail_if (ltb limit cells) too_many_cells ≡ ok u
    → a * b ≤ limit
guard_cells a b limit cells h h' = ground arith

pub accepted :
    (incoming candidate : Fingerprint) (config : Config) (r : Alignment)
    → align_video_sequences incoming candidate config ≡ ok r
    → Accepted incoming candidate config
      × (r.evidence ≡ evidence_of incoming candidate config)
      × (r.classification ≡ classify r.evidence config)
      × (validate config ≡ ok tt)
unfolding align_video_sequences Accepted
accepted incoming candidate config r h =
    let n : ℕ = length incoming.samples in
    let m : ℕ = length candidate.samples in
    >>=-elim (validate config) _ h λ u hv h1.
      >>=-elim (fail_if (n == 0 || m == 0) empty_sequence) _ h1 λ _ he h2.
        >>=-elim (ok_or (checked_mul (n + 1) (m + 1)) too_many_cells) _ h2 λ cells hc h3.
          >>=-elim (fail_if (ltb config.max_cells cells) too_many_cells) _ h3 λ _ hb h4.
            let e : record {
              classification = classify (evidence_of incoming candidate config) config;
              evidence = evidence_of incoming candidate config;
            }
                ≡ r =
              cc in
            let lengths : (0 < n) × (0 < m) = guard_lengths n m he in
            (
              (lengths.0, lengths.1, guard_cells (n + 1) (m + 1) config.max_cells cells hc hb),
              sym (ap (λ (x : Alignment). x.evidence) e),
              sym (ap (λ (x : Alignment). x.classification) e)
                  ∙ ap (λ (x : Alignment). classify x.evidence config) e,
              hv,
            )

pub guards_pass :
    (n m limit : ℕ)
    → 0 < n
    → 0 < m
    → (n + 1) * (m + 1) ≤ limit
    → limit < 2 ^ 64
    → (fail_if (n == 0 || m == 0) empty_sequence ≡ ok tt)
      × (ok_or (checked_mul (n + 1) (m + 1)) too_many_cells ≡ ok ((n + 1) * (m + 1)))
      × (fail_if (ltb limit ((n + 1) * (m + 1))) too_many_cells ≡ ok tt)
guards_pass n m limit hn hm hl hf = (ground arith, ground arith, ground arith)
