-- ===== src/Inbox/Tests.antt =====
-- Runs of the moves of an ingest, and their theorems at concrete statuses.
use sooqa.Inbox.Status.Names.{try_from_iff}
use sooqa.Inbox.Status.{as_str, try_from}
use sooqa.Prelude.{◌↔◌, ◌≡◌, refl, true, ok}
use sooqa.Inbox.Status.{
  transition_to, can_transition_to, is_terminal, completed, cancelled, probing, queued, storing,
}
use sooqa.Inbox.Status.Moves.{stay, move, terminal-Moves}
use sooqa.Inbox.Status.Pipeline.{Advances, pipeline-Advances}
use sooqa.Inbox.Status.{received, failed_retryable}
use sooqa.Prelude.{◌⊎◌}

probing_to_cancelled : transition_to probing cancelled ≡ (ok tt, cancelled)
unfolding transition_to can_transition_to is_terminal
probing_to_cancelled = refl

cancelled_is_terminal : is_terminal cancelled ≡ true
unfolding is_terminal
cancelled_is_terminal = refl

terminal-Moves_example : (transition_to cancelled queued).1 ≡ cancelled
terminal-Moves_example =
    terminal-Moves cancelled (transition_to cancelled queued).1 cancelled_is_terminal
      (move queued stay)

pipeline-Advances_example :
    Advances received probing
    × Advances probing completed
    × ((probing ≡ received) ⊎ Advances failed_retryable probing)
pipeline-Advances_example = pipeline-Advances probing refl

try_from_iff_example : (try_from "storing" ≡ ok storing) ↔ ("storing" ≡ as_str storing)
try_from_iff_example = try_from_iff "storing" storing
