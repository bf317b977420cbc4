-- ===== src/Polling/Doubling.antt =====
-- The delays double from the initial one up to the longest.
use sooqa.Prelude.{
  ℕ, suc, ◌*◌, ◌^◌, ◌≤◌, ◌≡◌, refl, ap, ◌∙◌, arith, min, leb, if◌then◌else◌, List, [], ◌∷◌, length,
  Option,
}
use native.Mathlib.Nat.{pow-suc}
use sooqa.Polling.{PollBackoff, max_duration, reset, next, failures}

-- One more doubling, capped.
doubled_once :
    (p longest : ℕ)
    → longest ≤ max_duration
    → min (if leb (min p longest * 2) max_duration then min p longest * 2 else longest) longest
      ≡ min (p * 2) longest
doubled_once p longest fits = ground arith

power_next : (start n : ℕ) → start * 2 ^ n * 2 ≡ start * 2 ^ suc n
power_next start n = rw (pow-suc 2 n) (omega arith)

failures-max_delay :
    (suggestions : List (Option ℕ)) (backoff : PollBackoff)
    → (failures suggestions backoff).max_delay ≡ backoff.max_delay
unfolding failures next
failures-max_delay [] backoff = refl
failures-max_delay (suggested ∷ earlier) backoff = failures-max_delay earlier backoff

-- Where the initial delay is at most the longest, and that a Duration, after any failures in a row since a reset,
-- whatever delays were suggested, the next delay is the initial one doubled as often, up to the longest.
pub failures-next_delay :
    (suggestions : List (Option ℕ)) (backoff : PollBackoff)
    → backoff.initial_delay ≤ backoff.max_delay
    → backoff.max_delay ≤ max_duration
    → (failures suggestions (reset backoff)).next_delay
      ≡ min (backoff.initial_delay * 2 ^ length suggestions) backoff.max_delay
unfolding failures reset next
failures-next_delay [] backoff below fits = omega arith
failures-next_delay (suggested ∷ earlier) backoff below fits =
    let so_far = failures-next_delay earlier backoff below fits in
    let longest = failures-max_delay earlier (reset backoff) in
    rw (so_far, longest)
      (doubled_once (backoff.initial_delay * 2 ^ length earlier) backoff.max_delay fits
        ∙ ap (λ x. min x backoff.max_delay) (power_next backoff.initial_delay (length earlier)))
