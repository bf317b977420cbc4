-- ===== src/VideoSequence/Tokens/Order.antt =====
-- The tokens rise strictly, lie in one range, and are few enough for the library's input check.
use sooqa.Prelude.{
  ℕ, zero, suc, ◌+◌, ◌*◌, ◌/◌, ◌%◌, ◌^◌, ◌≤◌, ◌<◌, ◌≡◌, arith, ltb, ltb→lt, ◌==◌, ==_iff, if-both,
  Bool-cases, inl, inr, List, [], ◌∷◌, take, length, length-take, All, All-append, All-take, get_or,
}
use native.Mathlib.Nat.{mod-lt}
use sooqa.VideoSequence.Defs.{Sample, Fingerprint}
use sooqa.VideoSequence.Tokens.{
  Anchor, insert_by, sort_by, token, append_hash_tokens, token_loop, dedup, derive_search_tokens,
  max_tokens, max_anchors, anchors_from, by_rank, by_index,
}

-- A token as an `i64`: positive, with its first byte 1.
pub IsToken : ℕ → Type 0
IsToken t = (2 ^ 56 ≤ t) × (t < 2 ^ 57)

-- Every element of the list is above the given number, and the list rises.
pub Rises : ℕ → List ℕ → Type 0
Rises low [] = Unit
Rises low (x ∷ xs) = (low < x) × Rises x xs

-- The same, with equal neighbours.
Climbs : ℕ → List ℕ → Type 0
Climbs low [] = Unit
Climbs low (x ∷ xs) = (low ≤ x) × Climbs x xs

IsToken-range :
    (kind band value : ℕ)
    → kind ≤ 2
    → band ≤ 3
    → value < 2 ^ 16
    → IsToken (2 ^ 56 + kind * 2 ^ 48 + band * 2 ^ 40 + value)
unfolding IsToken
IsToken-range kind band value hk hb hv = (omega arith, omega arith)

token-IsToken : (kind hash band : ℕ) → kind ≤ 2 → band ≤ 3 → IsToken (token kind hash band)
unfolding IsToken
token-IsToken kind hash band hk hb =
    IsToken-range kind band (hash / 2 ^ (band * 16) % 2 ^ 16) hk hb (mod-lt _ (omega arith))

append-IsToken :
    (tokens : List ℕ) (kind hash : ℕ)
    → kind ≤ 2
    → All IsToken tokens
    → All IsToken (append_hash_tokens tokens kind hash)
unfolding append_hash_tokens
append-IsToken tokens kind hash hk h = All-append IsToken tokens _ h (
  token-IsToken kind hash 0 hk (omega arith),
  (
    token-IsToken kind hash 1 hk (omega arith),
    (token-IsToken kind hash 2 hk (omega arith), (token-IsToken kind hash 3 hk (omega arith), tt)),
  ),
)

token_loop-IsToken :
    (samples : List Sample) (blank : Sample) (anchors : List Anchor) (tokens : List ℕ)
    → All IsToken tokens
    → All IsToken (token_loop samples blank anchors tokens)
unfolding token_loop
token_loop-IsToken samples blank [] tokens h = h
token_loop-IsToken samples blank ((index, r) ∷ anchors) tokens h =
    let sample : Sample = get_or samples index blank in
    token_loop-IsToken samples blank anchors
      (append_hash_tokens (append_hash_tokens tokens 1 sample.phash) 2 sample.dhash)
      (append-IsToken (append_hash_tokens tokens 1 sample.phash) 2 sample.dhash (omega arith)
        (append-IsToken tokens 1 sample.phash (omega arith) h))

insert_by-All : (P : ℕ → Type 0) (x : ℕ) (ys : List ℕ) → P x → All P ys → All P (insert_by ltb x ys)
unfolding insert_by
insert_by-All P x [] hx hy = (hx, tt)
insert_by-All P x (y ∷ ys) hx hy =
    if-both (All P) (ltb y x) {x = y ∷ insert_by ltb x ys} {y = x ∷ y ∷ ys}
      (hy.0, insert_by-All P x ys hx hy.1) (hx, hy)

sort_by-All : (P : ℕ → Type 0) (xs : List ℕ) → All P xs → All P (sort_by ltb xs)
unfolding sort_by
sort_by-All P [] h = tt
sort_by-All P (x ∷ xs) h = insert_by-All P x (sort_by ltb xs) h.0 (sort_by-All P xs h.1)

insert_by-Climbs :
    (low x : ℕ) (ys : List ℕ) → low ≤ x → Climbs low ys → Climbs low (insert_by ltb x ys)
unfolding insert_by Climbs
insert_by-Climbs low x [] hx h = (hx, tt)
insert_by-Climbs low x (y ∷ ys) hx h = elim (Bool-cases (ltb y x)) [
  | inl e ↦ rw e (h.0, insert_by-Climbs y x ys (omega (arith, ltb→lt y x e)) h.1)
  | inr e ↦ rw e (hx, (ground arith, h.1))
]

sort_by-Climbs : (xs : List ℕ) → Climbs 0 (sort_by ltb xs)
unfolding sort_by Climbs
sort_by-Climbs [] = tt
sort_by-Climbs (x ∷ xs) = insert_by-Climbs 0 x (sort_by ltb xs) (omega arith) (sort_by-Climbs xs)

dedup-Rises : (low x : ℕ) (xs : List ℕ) → low < x → Climbs x xs → Rises low (dedup (x ∷ xs))
unfolding dedup Climbs Rises
dedup-Rises low x [] hx h = (hx, tt)
dedup-Rises low x (y ∷ ys) hx h = elim (Bool-cases (x == y)) [
  | inl e ↦ let same : x ≡ y = (==_iff x y).0 e in rw e (dedup-Rises low y ys (omega arith) h.1)
  | inr e ↦ let above : x < y = ground (arith, h.0) in rw e (hx, dedup-Rises x y ys above h.1)
]

dedup-All : (P : ℕ → Type 0) (xs : List ℕ) → All P xs → All P (dedup xs)
unfolding dedup
dedup-All P [] h = tt
dedup-All P (x ∷ []) h = h
dedup-All P (x ∷ y ∷ ys) h =
    if-both (All P) (x == y) {x = dedup (y ∷ ys)} {y = x ∷ dedup (y ∷ ys)}
      (dedup-All P (y ∷ ys) h.1) (h.0, dedup-All P (y ∷ ys) h.1)

take-Rises : (low n : ℕ) (xs : List ℕ) → Rises low xs → Rises low (take n xs)
unfolding Rises
take-Rises low zero xs h = tt
take-Rises low (suc n) [] h = tt
take-Rises low (suc n) (x ∷ xs) h = (h.0, take-Rises x n xs h.1)

dedup_sorted : (xs : List ℕ) → All IsToken xs → Climbs 0 xs → Rises 0 (dedup xs)
unfolding Climbs IsToken Rises dedup
dedup_sorted [] h c = tt
dedup_sorted (x ∷ xs) h c = dedup-Rises 0 x xs (omega (arith, h.0.0)) c.1

-- The search tokens of any fingerprint rise strictly, are positive `i64` numbers whose first byte is
-- 1, and are at most 1024.
pub derive_search_tokens-Rises :
    (blank : Sample) (f : Fingerprint)
    → Rises 0 (derive_search_tokens blank f)
      × All IsToken (derive_search_tokens blank f)
      × (length (derive_search_tokens blank f) ≤ max_tokens)
unfolding derive_search_tokens
derive_search_tokens-Rises blank f =
    let anchors : List Anchor =
      sort_by by_index (take max_anchors (sort_by by_rank (anchors_from 0 f.samples))) in
    let sorted : List ℕ = sort_by ltb (token_loop f.samples blank anchors []) in
    let all : All IsToken sorted =
      sort_by-All IsToken _ (token_loop-IsToken f.samples blank anchors [] tt) in
    let rises : Rises 0 (dedup sorted) = dedup_sorted sorted all (sort_by-Climbs _) in
    (
      take-Rises 0 max_tokens (dedup sorted) rises,
      All-take IsToken max_tokens (dedup sorted) (dedup-All IsToken sorted all),
      omega (arith, length-take max_tokens (dedup sorted)),
    )
