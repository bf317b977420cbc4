-- ===== src/Publisher/Commands/Revisions.antt =====
-- What a command that succeeded has done: it was a replay, or it replaced one post by its next revision.
pub mod Edits
pub mod Sends
pub mod Sending
pub mod Decisions
pub mod Replays
pub mod Schedules
use sooqa.Prelude.{
  ℕ, ◌+◌, ◌≤◌, ◌≡◌, refl, sym, subst, ◌∙◌, arith, Bool, true, false, not, ◌&&◌, ◌==◌, ◌⊎◌, inl, inr,
  List, Result, ok, err,
}
use sooqa.Prelude.Int.{ℤ, pos, int_eq}
use sooqa.Prelude.Tables.Rewrites.{Mem}
use sooqa.Publisher.Posts.{PostRow}
use sooqa.Publisher.Posts.Valid.{IsPost, IsOpen}
use sooqa.Publisher.Store.{max_i64}
use sooqa.Publisher.Store.Swaps.{swap, Updated}
use sooqa.Publisher.Commands.{check_expected_revision, next_revision}

module _ {Value : Type 0} where
  -- The post that the command found is replaced by the one that it returns, and no other changes.
  pub record Replaced (id : ℕ) (Guard : PostRow Value → PostRow Value → Type 0)
      (posts : List (PostRow Value)) (row : PostRow Value) (posts' : List (PostRow Value))
      : Type 0 where
    pub current : PostRow Value
    pub was_there : Mem current posts
    pub same_id : current.id ≡ id
    pub keeps_id : row.id ≡ id
    pub guarded : Guard current row
    pub was_open : IsOpen current
    pub one_more : row.revision ≡ current.revision + 1
    pub no_less : current.send_generation ≤ row.send_generation
    pub keeps_valid : IsPost current → IsPost row
    pub replaced : posts' ≡ swap row posts

  -- Nothing changes, and the row is the post as it is.
  pub record Replayed (id : ℕ) (posts : List (PostRow Value)) (row : PostRow Value)
      (posts' : List (PostRow Value)) : Type 0 where
    pub was_there : Mem row posts
    pub same_id : row.id ≡ id
    pub unchanged : posts' ≡ posts

  abbrev pub Command :
      ℕ
      → (PostRow Value → PostRow Value → Type 0)
      → List (PostRow Value)
      → PostRow Value
      → List (PostRow Value)
      → Type 0
  Command id Guard posts row posts' =
      Replayed id posts row posts' ⊎ Replaced id Guard posts row posts'

  -- The revision that was asked for was the post's.
  abbrev pub Revised : ℤ → PostRow Value → PostRow Value → Type 0
  Revised expected current row = int_eq expected (pos current.revision) ≡ true

  pub Updated-Replaced :
      (id : ℕ) (Guard : PostRow Value → PostRow Value → Type 0) (posts : List (PostRow Value))
      (row : PostRow Value) (posts' : List (PostRow Value)) (current : PostRow Value)
      (p : PostRow Value → Bool) (f : PostRow Value → PostRow Value)
      → Mem current posts
      → current.id ≡ id
      → (f current).id ≡ current.id
      → Guard current (f current)
      → IsOpen current
      → (f current).revision ≡ current.revision + 1
      → current.send_generation ≤ (f current).send_generation
      → (IsPost current → IsPost (f current))
      → Updated current p f posts row posts'
      → Replaced id Guard posts row posts'
  Updated-Replaced id Guard posts row posts' current p f m same keep guard opens more least valid
        (is_f, met, swapped) =
      subst (λ (x : PostRow Value). Replaced id Guard posts x posts') (sym is_f)
        (record {
          current = current;
          was_there = m;
          same_id = same;
          keeps_id = keep ∙ same;
          guarded = guard;
          was_open = opens;
          one_more = more;
          no_less = least;
          keeps_valid = valid;
          replaced = swapped;
        })

  pub check_expected_revision-eq :
      (current : PostRow Value) (expected : ℤ) (u : Unit {0})
      → check_expected_revision current expected ≡ ok u
      → int_eq expected (pos current.revision) ≡ true
  unfolding check_expected_revision
  check_expected_revision-eq current expected u h = ground arith

pub next_revision-suc : (n r : ℕ) → next_revision n ≡ ok r → r ≡ n + 1
unfolding next_revision
next_revision-suc n r h = ground arith

-- A test that was negated and let the command go on holds.
pub not-false : (b : Bool) → not b ≡ false → b ≡ true
not-false b h = ground arith

pub id_of_test : (a b : ℕ) (rest : Bool) → (a == b && rest) ≡ true → a ≡ b
id_of_test a b rest h = ground arith
