-- ===== src/Inbox/Status/Pipeline.antt =====
-- The pipeline of an ingest that does not fail: its statuses, and the moves that lead on.
use sooqa.Prelude.{false, ◌≡◌, refl, sym, subst, ◌⊎◌, inl, inr, ok}
use sooqa.Inbox.Status.{
  IngestStatus, can_transition_to, transition_to, is_terminal, is_failure_or_cancel, received,
  queued, downloading, probing, exact_dedup_check, normalizing, fingerprinting, duplicate_pending,
  storing, completed, failed_retryable, failed_terminal, cancelled,
}

-- The runs of accepted calls of `transition_to` on the way to no failure and no cancellation.
pub data Advances : IngestStatus → IngestStatus → Type 0 where
  arrived : {s : IngestStatus} → Advances s s
  advance :
      {s u : IngestStatus} (target : IngestStatus)
      → (transition_to s target).0 ≡ ok tt
      → is_failure_or_cancel target ≡ false
      → Advances target u
      → Advances s u

pub Advances-trans : {s t u : IngestStatus} → Advances s t → Advances t u → Advances s u
Advances-trans arrived r = r
Advances-trans (advance target taken fair l) r = advance target taken fair (Advances-trans l r)

step :
    {s : IngestStatus} (target : IngestStatus)
    → (transition_to s target).0 ≡ ok tt
    → is_failure_or_cancel target ≡ false
    → Advances s target
step target taken fair = advance target taken fair arrived

to_probing : Advances queued probing
unfolding transition_to can_transition_to is_terminal
to_probing = advance downloading refl refl (step probing refl refl)

to_fingerprinting : Advances queued fingerprinting
unfolding transition_to can_transition_to is_terminal
to_fingerprinting =
    Advances-trans to_probing (advance normalizing refl refl (step fingerprinting refl refl))

from_queued :
    (s : IngestStatus) → is_failure_or_cancel s ≡ false → (s ≡ received) ⊎ Advances queued s
unfolding transition_to can_transition_to is_terminal
from_queued received h = inl refl
from_queued queued h = inr arrived
from_queued downloading h = inr (step downloading refl refl)
from_queued probing h = inr to_probing
from_queued exact_dedup_check h = inr (Advances-trans to_probing (step exact_dedup_check refl refl))
from_queued normalizing h =
    inr
      (Advances-trans to_probing (advance exact_dedup_check refl refl (step normalizing refl refl)))
from_queued fingerprinting h = inr to_fingerprinting
from_queued duplicate_pending h =
    inr (Advances-trans to_fingerprinting (step duplicate_pending refl refl))
from_queued storing h = inr (Advances-trans to_fingerprinting (step storing refl refl))
from_queued completed h = inr (Advances-trans to_fingerprinting (step completed refl refl))
from_queued failed_retryable h = absurd (cc h)
from_queued failed_terminal h = absurd (cc h)
from_queued cancelled h = absurd (cc h)

to_completed : (s : IngestStatus) → is_failure_or_cancel s ≡ false → Advances s completed
unfolding transition_to can_transition_to is_terminal
to_completed received h =
    advance queued refl refl (Advances-trans to_fingerprinting (step completed refl refl))
to_completed queued h = Advances-trans to_fingerprinting (step completed refl refl)
to_completed downloading h =
    advance probing refl refl
      (advance normalizing refl refl (advance storing refl refl (step completed refl refl)))
to_completed probing h =
    advance normalizing refl refl (advance storing refl refl (step completed refl refl))
to_completed exact_dedup_check h =
    advance normalizing refl refl (advance storing refl refl (step completed refl refl))
to_completed normalizing h = advance storing refl refl (step completed refl refl)
to_completed fingerprinting h = step completed refl refl
to_completed duplicate_pending h = advance storing refl refl (step completed refl refl)
to_completed storing h = step completed refl refl
to_completed completed h = arrived
to_completed failed_retryable h = absurd (cc h)
to_completed failed_terminal h = absurd (cc h)
to_completed cancelled h = absurd (cc h)

-- Every status that is no failure and no cancellation is reached from a new ingest and leads to completion, by
-- accepted transitions that never fail or cancel the ingest; and all of them but `received` are reached so from a
-- retryable failure.
pub pipeline-Advances :
    (s : IngestStatus)
    → is_failure_or_cancel s ≡ false
    → Advances received s × Advances s completed × ((s ≡ received) ⊎ Advances failed_retryable s)
unfolding transition_to can_transition_to is_terminal
pipeline-Advances s h =
    let again : (s ≡ received) ⊎ Advances failed_retryable s = elim (from_queued s h) [
      | inl e ↦ inl e
      | inr r ↦ inr (advance queued refl refl r)
    ] in
    let first : Advances received s = elim (from_queued s h) [
      | inl e ↦ subst (λ (x : IngestStatus). Advances received x) (sym e) arrived
      | inr r ↦ advance queued refl refl r
    ] in
    (first, to_completed s h, again)
