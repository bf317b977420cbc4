-- ===== src/Alignment/Config/Classes.antt =====
-- What the classification of evidence means.
use sooqa.Prelude.{
  ◌<◌, ◌≤◌, ◌≡◌, ◌↔◌, refl, arith, ◌⊎◌, inl, inr, true, ltb, Bool-cases, ltb→lt, ok,
}
use sooqa.Alignment.Config.{
  Config, validate, Evidence, classify, is_strong, strong_duplicate, partial_match, not_duplicate,
}

pub validate-matches :
    (config : Config) → validate config ≡ ok tt → 0 < config.min_informative_matches
unfolding validate
validate-matches config h = ground arith

-- Every threshold of the configuration is met.
pub record Strong (e : Evidence) (c : Config) : Type 0 where
  pub informative_met : c.min_informative_matches ≤ e.informative_matched_samples
  pub incoming_met : c.min_incoming_coverage_bps ≤ e.incoming_coverage_bps
  pub candidate_met : c.min_candidate_coverage_bps ≤ e.candidate_coverage_bps
  pub median_met : e.median_distance_bps ≤ c.max_median_distance_bps
  pub high_met : e.high_percentile_distance_bps ≤ c.max_high_percentile_distance_bps
  pub run_met : c.min_longest_run ≤ e.longest_temporally_consistent_run
  pub gaps_met : e.gap_count ≤ c.max_gap_count
  pub score_met : c.min_score_bps ≤ e.score_bps

pub is_strong-Strong : (e : Evidence) (c : Config) → is_strong e c ≡ true → Strong e c
is_strong-Strong e c h = record {
  informative_met = ground arith;
  incoming_met = ground arith;
  candidate_met = ground arith;
  median_met = ground arith;
  high_met = ground arith;
  run_met = ground arith;
  gaps_met = ground arith;
  score_met = ground arith;
}

pub classify-cases :
    (e : Evidence) (c : Config)
    → ((classify e c ≡ strong_duplicate) × (is_strong e c ≡ true))
      ⊎ (((classify e c ≡ partial_match) × (0 < e.informative_matched_samples))
          ⊎ ((classify e c ≡ not_duplicate) × (e.informative_matched_samples ≡ 0)))
unfolding classify
classify-cases e c = elim (Bool-cases (is_strong e c)) [
  | inl s ↦ rw s (inl (refl, refl))
  | inr s ↦ elim (Bool-cases (ltb 0 e.informative_matched_samples)) [
    | inl p ↦ rw (s, p) (inr (inl (refl, ltb→lt 0 e.informative_matched_samples p)))
    | inr p ↦ rw (s, p) (inr (inr (refl, ground arith)))
  ]
]

pub classified-Strong : (e : Evidence) (c : Config) → classify e c ≡ strong_duplicate → Strong e c
classified-Strong e c h = elim (classify-cases e c) [
  | inl s ↦ is_strong-Strong e c s.1
  | inr (inl p) ↦ absurd (cc (p.0, h))
  | inr (inr n) ↦ absurd (cc (n.0, h))
]

-- A valid configuration asks for a match, so evidence with none is never strong.
pub classified_unmatched :
    (e : Evidence) (c : Config)
    → validate c ≡ ok tt
    → (classify e c ≡ not_duplicate) ↔ (e.informative_matched_samples ≡ 0)
classified_unmatched e c hv = elim (classify-cases e c) [
  | inl s ↦
      let met : Strong e c = is_strong-Strong e c s.1 in
      (
        (λ h. absurd (cc (s.0, h))),
        λ h. absurd (omega (arith, met.informative_met, validate-matches c hv)),
      )
  | inr (inl p) ↦ ((λ h. absurd (cc (p.0, h))), λ h. absurd (omega arith))
  | inr (inr n) ↦ ((λ h. n.1), λ h. n.0)
]
