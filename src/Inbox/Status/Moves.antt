-- ===== src/Inbox/Status/Moves.antt =====
-- What a run of moves can do: an ended ingest stays as it is.
use sooqa.Prelude.{
  true, Bool-cases, ◌≡◌, refl, sym, ap, ◌∙◌, inl, inr, ◌==◌, ==_iff, List, [], ◌∷◌, get_or,
}
use sooqa.Inbox.Status.{
  IngestStatus, is_terminal, can_transition_to, transition_to, discriminant, received, queued,
  downloading, probing, exact_dedup_check, normalizing, fingerprinting, duplicate_pending, storing,
  completed, failed_retryable, failed_terminal, cancelled,
}

-- The statuses that calls of `transition_to`, with any targets, lead to.
pub data Moves : IngestStatus → IngestStatus → Type 0 where
  stay : {s : IngestStatus} → Moves s s
  move :
      {s u : IngestStatus} (target : IngestStatus) → Moves (transition_to s target).1 u → Moves s u

-- The statuses in the order of their discriminants.
abbrev statuses : List IngestStatus
statuses =
    received ∷ queued ∷ downloading ∷ probing ∷ exact_dedup_check ∷ normalizing ∷ fingerprinting
    ∷ duplicate_pending ∷ storing ∷ completed ∷ failed_retryable ∷ failed_terminal ∷ cancelled ∷ []

status_at : (s : IngestStatus) → get_or statuses (discriminant s) received ≡ s
status_at received = refl
status_at queued = refl
status_at downloading = refl
status_at probing = refl
status_at exact_dedup_check = refl
status_at normalizing = refl
status_at fingerprinting = refl
status_at duplicate_pending = refl
status_at storing = refl
status_at completed = refl
status_at failed_retryable = refl
status_at failed_terminal = refl
status_at cancelled = refl

from_discriminant : (s t : IngestStatus) → discriminant s ≡ discriminant t → s ≡ t
from_discriminant s t h = sym (status_at s) ∙ ap (λ n. get_or statuses n received) h ∙ status_at t

terminal_fixed : (s target : IngestStatus) → is_terminal s ≡ true → (transition_to s target).1 ≡ s
unfolding transition_to can_transition_to
terminal_fixed s target h = elim (Bool-cases (discriminant s == discriminant target)) [
  | inl e ↦
      rw (e, transition_to)
        (sym (from_discriminant s target ((==_iff (discriminant s) (discriminant target)).0 e)))
  | inr e ↦ rw (e, h, transition_to) refl
]

terminal_from : (s s' u : IngestStatus) → s' ≡ s → is_terminal s ≡ true → Moves s' u → u ≡ s
terminal_from s s' _ e h stay = e
terminal_from s s' u e h (move target m) =
    let ends : is_terminal s' ≡ true = ap is_terminal e ∙ h in
    terminal_from s (transition_to s' target).1 u (terminal_fixed s' target ends ∙ e) h m

-- A completed, finally failed or cancelled ingest keeps its status through every run of transitions.
pub terminal-Moves : (s u : IngestStatus) → is_terminal s ≡ true → Moves s u → u ≡ s
terminal-Moves s u h m = terminal_from s s u refl h m
