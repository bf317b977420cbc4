-- ===== src/VideoSequence/Tokens.antt =====
-- The search tokens of a fingerprint: four bands of each hash of its most telling samples.
pub mod Order
use sooqa.Prelude.{
  ℕ, zero, suc, ◌+◌, ◌*◌, ◌/◌, ◌%◌, ◌^◌, min, leb, ltb, ◌==◌, ◌&&◌, ◌||◌, if◌then◌else◌, Bool, List,
  [], ◌∷◌, ◌++◌, take, get_or,
}
use sooqa.VideoSequence.Defs.{Sample, Fingerprint}

abbrev pub max_anchors : ℕ
max_anchors = 128

abbrev pub max_tokens : ℕ
max_tokens = 1024

-- (index, rank)
abbrev pub Anchor : Type 0
Anchor = ℕ × ℕ

-- An information and a transition are `u16`, so the rank does not saturate.
abbrev pub rank : Sample → ℕ
rank s = s.information_bps * 3 + s.transition_bps

-- `enumerate`, `filter` and `map`, from an index on.
unfoldable pub anchors_from : ℕ → List Sample → List Anchor
anchors_from index [] = []
anchors_from index (s ∷ rest) =
    let others = anchors_from (index + 1) rest in
    if leb 1000 s.information_bps then (index, rank s) ∷ others else others

-- A sort by insertion; the source's sorts are by keys that no two elements share, or on numbers.
module _ {A : Type 0} (before : A → A → Bool) where
  unfoldable pub insert_by : A → List A → List A
  insert_by x [] = x ∷ []
  insert_by x (y ∷ ys) = let rest = insert_by x ys in if before y x then y ∷ rest else x ∷ y ∷ ys

  unfoldable pub sort_by : List A → List A
  sort_by [] = []
  sort_by (x ∷ xs) = insert_by x (sort_by xs)

abbrev pub by_rank : Anchor → Anchor → Bool
by_rank (i, r) (i', r') = ltb r' r || (r == r' && ltb i i')

abbrev pub by_index : Anchor → Anchor → Bool
by_index (i, r) (i', r') = ltb i i'

-- The fields of a token do not overlap, so `|` adds them.
abbrev pub token : ℕ → ℕ → ℕ → ℕ
token kind hash band = 2 ^ 56 + kind * 2 ^ 48 + band * 2 ^ 40 + hash / 2 ^ (band * 16) % 2 ^ 16

unfoldable pub append_hash_tokens : List ℕ → ℕ → ℕ → List ℕ
append_hash_tokens tokens kind hash =
    tokens ++ token kind hash 0 ∷ token kind hash 1 ∷ token kind hash 2 ∷ token kind hash 3 ∷ []

-- The loop over the anchors; an index is in range, and `blank` is never read.
unfoldable pub token_loop : List Sample → Sample → List Anchor → List ℕ → List ℕ
token_loop samples blank [] tokens = tokens
token_loop samples blank ((index, r) ∷ anchors) tokens =
    let sample = get_or samples index blank in
    token_loop samples blank anchors
      (append_hash_tokens (append_hash_tokens tokens 1 sample.phash) 2 sample.dhash)

-- `dedup`: an element that equals the one before it goes.
unfoldable pub dedup : List ℕ → List ℕ
dedup [] = []
dedup (x ∷ []) = x ∷ []
dedup (x ∷ y ∷ ys) = let rest = dedup (y ∷ ys) in if x == y then rest else x ∷ rest

unfoldable pub derive_search_tokens : Sample → Fingerprint → List ℕ
derive_search_tokens blank f =
    let ranked = take max_anchors (sort_by by_rank (anchors_from 0 f.samples)) in
    take max_tokens (dedup (sort_by ltb (token_loop f.samples blank (sort_by by_index ranked) [])))
