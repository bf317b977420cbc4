-- ===== src/Polling/Tests.antt =====
-- Three failures in a row.
use sooqa.Prelude.{ℕ, ◌*◌, ◌^◌, ◌≡◌, refl, arith, min, List, [], ◌∷◌, Option, none, some}
use sooqa.Polling.{PollBackoff, new, next, failures, reset}
use sooqa.Polling.Doubling.{failures-next_delay}

abbrev backoff : PollBackoff
backoff = new 1000 5000

abbrev suggestions : List (Option ℕ)
suggestions = none ∷ some 9000 ∷ none ∷ []

suggested_delay : (next backoff (some 9000)).0 ≡ 9000
unfolding next
suggested_delay = refl

failures-next_delay_example :
    (failures suggestions (reset backoff)).next_delay ≡ min (1000 * 2 ^ 3) 5000
failures-next_delay_example = failures-next_delay suggestions backoff (ground arith) (ground arith)
