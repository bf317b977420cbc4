-- ===== src/Publisher/Commands/Revisions/Sends.antt =====
-- The conditions of a step of a send, and what the table keeps of the post after it.
use sooqa.Prelude.{ℕ, ◌+◌, ◌≡◌, refl, arith, String, true, false, ◌||◌, inl, inr}
use sooqa.Prelude.Strings.{str_eq, opt_nat_eq}
use sooqa.Prelude.Int.{ℤ, pos, int_eq, leb_ℤ}
use sooqa.Publisher.Posts.{PostState, PostRow, as_str}
use sooqa.Publisher.Posts.Valid.{IsPost, reviewed-none}
use sooqa.Publisher.Store.{Environment, Moment}
use sooqa.Publisher.Commands.Sending.{
  PublishLease, is_sent_by, claimed_post, claims, published_post, ended_send, retried_send,
}
use sooqa.Publisher.Commands.Revisions.{Revised}

module _ {Value : Type 0} where
  -- A claim takes a post that waits, at the revision asked for, to the next generation of sends.
  abbrev pub Claimed : ℤ → PostRow Value → PostRow Value → Type 0
  Claimed expected current row =
      Revised expected current row
      × ((str_eq current.state "queued" ≡ true)
          × (row.send_generation ≡ current.send_generation + 1))

  -- The send of this generation and token was under way.
  abbrev pub Sent : PublishLease → PostRow Value → PostRow Value → Type 0
  Sent lease current row =
      (str_eq current.state "sending" ≡ true)
      × ((current.send_generation ≡ lease.generation)
          × (opt_nat_eq current.send_token lease.token ≡ true))

module _ {Value Zone : Type 0} (env : Environment Value Zone) (moment : Moment) where
  pub sent_id :
      (id : ℕ) (lease : PublishLease) (b : PostRow Value)
      → is_sent_by env moment id lease b ≡ true
      → b.id ≡ id
  sent_id id lease b h = ground arith

  pub sent_parts :
      (id : ℕ) (lease : PublishLease) (b : PostRow Value)
      → is_sent_by env moment id lease b ≡ true
      → (str_eq b.state "sending" ≡ true)
        × ((b.send_generation ≡ lease.generation) × (opt_nat_eq b.send_token lease.token ≡ true))
  sent_parts id lease b h = (ground arith, (ground arith, ground arith))

  pub claims_id :
      (id : ℕ) (expected : ℤ) (b : PostRow Value)
      → claims env moment id expected b ≡ true
      → b.id ≡ id
  claims_id id expected b h = ground arith

  pub claims_parts :
      (id : ℕ) (expected : ℤ) (b : PostRow Value)
      → claims env moment id expected b ≡ true
      → (str_eq b.state "queued" ≡ true) × (int_eq (pos b.revision) expected ≡ true)
  claims_parts id expected b h = (ground arith, ground arith)

  pub int_eq-swap : (a b : ℤ) → int_eq a b ≡ true → int_eq b a ≡ true
  int_eq-swap a b h = ground arith

  pub claimed-IsPost :
      (revision : ℕ) (current : PostRow Value)
      → str_eq current.state "queued" ≡ true
      → IsPost current
      → IsPost (claimed_post env moment revision current)
  claimed-IsPost revision current waits v = record {
    fence = inl (refl, ((moment.fresh, refl), (moment.now, refl)));
    message = inl refl;
    slot = v.slot;
    reviewed = inl (reviewed-none current "queued" v waits refl);
  }

  pub published-IsPost :
      (m : ℤ) (current : PostRow Value)
      → leb_ℤ m (pos 0) ≡ false
      → str_eq current.state "sending" ≡ true
      → IsPost current
      → IsPost (published_post env moment m current)
  published-IsPost m current positive sent v = record {
    fence = inr (refl, (refl, refl));
    message = inr ((m, (refl, positive)), (_, refl));
    slot = v.slot;
    reviewed = inl (reviewed-none current "sending" v sent refl);
  }

  -- The states that a send can end in without a message.
  abbrev pub IsEnd : String → Type 0
  IsEnd state = (str_eq state "sending" ≡ false) × (str_eq state "published" ≡ false)

  pub ended-IsPost :
      (before state class message : String) (current : PostRow Value)
      → (str_eq before "draft" || str_eq before "cancelled") ≡ false
      → IsEnd state
      → str_eq current.state before ≡ true
      → IsPost current
      → IsPost (ended_send env moment state class message current)
  ended-IsPost before state class message current left ends was v = record {
    fence = inr (ends.0, (refl, refl));
    message = inl ends.1;
    slot = v.slot;
    reviewed = inl (reviewed-none current before v was left);
  }

  pub retried-IsPost :
      (state : PostState) (class message : String) (revision : ℕ) (current : PostRow Value)
      → IsEnd (as_str state)
      → str_eq current.state "sending" ≡ true
      → IsPost current
      → IsPost (retried_send env moment state class message revision current)
  retried-IsPost state class message revision current ends sent v = record {
    fence = inr (ends.0, (refl, refl));
    message = inl ends.1;
    slot = v.slot;
    reviewed = inl (reviewed-none current "sending" v sent refl);
  }
