-- ===== src/Publisher/Commands/FreeSlot.antt =====
-- The slot that `next_free_slot` gives is free among the posts of the table.
use sooqa.Prelude.{
  ℕ, ◌≤◌, ◌≡◌, ◌≢◌, refl, arith, Bool, true, false, Bool-cases, ◌⊎◌, inl, inr, ◌==◌, ==_iff, not,
  ◌&&◌, ◌||◌, List, ◌∷◌, some, Option-cases, Result, ok, err,
}
use sooqa.Prelude.Strings.{str_eq, str_eq_iff}
use sooqa.Prelude.Tables.Rewrites.{Mem, here, there}
use sooqa.Publisher.Posts.{PostRow, PublisherRepositoryError}
use sooqa.Publisher.Slots.{ChannelRow, contains}
use sooqa.Publisher.Slots.Free.{IsSlot, search_free_slot-IsSlot}
use sooqa.Publisher.Store.{Environment, Moment, Store, lift}
use sooqa.Publisher.Commands.{cadence_slots, next_free_slot}

later_free : (a b : Bool) → (a || b) ≡ false → b ≡ false
later_free a b h = ground arith

module _ {Value : Type 0} where
  -- Another post of the channel that is queued or being sent.
  pub record Rival (channel_id post_id : ℕ) (b : PostRow Value) : Type 0 where
    pub of_channel : b.channel_id ≡ channel_id
    pub another : b.id ≢ post_id
    pub waits_or_sent : (b.state ≡ "queued") ⊎ (b.state ≡ "sending")

  abbrev is_rival : ℕ → ℕ → PostRow Value → Bool
  is_rival channel_id post_id row =
      row.channel_id == channel_id
      && not (row.id == post_id)
      && (str_eq row.state "queued" || str_eq row.state "sending")

  Rival-is_rival :
      (channel_id post_id : ℕ) (b : PostRow Value)
      → Rival channel_id post_id b
      → is_rival channel_id post_id b ≡ true
  Rival-is_rival channel_id post_id b r =
      let named : (str_eq b.state "queued" || str_eq b.state "sending") ≡ true =
        elim r.waits_or_sent [
          | inl e ↦ let q = (str_eq_iff b.state "queued").1 e in ground arith
          | inr e ↦ let q = (str_eq_iff b.state "sending").1 e in ground arith
        ] in
      let here_too = r.of_channel in let other = r.another in ground arith

  slots-free :
      (channel_id post_id slot : ℕ) (b : PostRow Value) (rows : List (PostRow Value))
      → contains (cadence_slots channel_id post_id rows) slot ≡ false
      → Mem b rows
      → is_rival channel_id post_id b ≡ true
      → b.cadence_slot_at ≢ some slot
  slots-free channel_id post_id slot b _ free (here {rows}) met held =
      let own : (slot == slot) ≡ true = (==_iff slot slot).1 refl in
      absurd (cc (own, rw (met, held) at free))
  slots-free channel_id post_id slot b _ free (there {b = other} {rows} m) met held =
      slots-free channel_id post_id slot b rows (rest_free other rows free) m met held
    where
      rest_free :
          (a : PostRow Value) (others : List (PostRow Value))
          → contains (cadence_slots channel_id post_id (a ∷ others)) slot ≡ false
          → contains (cadence_slots channel_id post_id others) slot ≡ false
      rest_free a others h = elim (Bool-cases (is_rival channel_id post_id a)) [
        | inr e ↦ rw e at h
        | inl e ↦ elim (Option-cases a.cadence_slot_at) [
          | inl n ↦ rw (e, n) at h
          | inr (t, n) ↦ later_free (t == slot) _ (rw (e, n) at h)
        ]
      ]

module _ {Value Zone : Type 0} (env : Environment Value Zone) (moment : Moment) where
  lift-ok :
      {A : Type 0} (r : Result PublisherRepositoryError A) (db db' : Store Value) (a : A)
      → lift r db ≡ ok (a, db')
      → (r ≡ ok a) × (db' ≡ db)
  unfolding lift
  lift-ok (ok x) db db' a h = (cc, cc)
  lift-ok (err e) db db' a h = absurd (cc h)

  -- The slot that a post is given is held by no other post of its channel that is queued or being sent, is
  -- neither before the request nor before the present, and stands on the grid of a day of the channel; the
  -- tables stay as they are.
  pub next_free_slot-IsFree :
      (channel : ChannelRow) (post_id requested_at slot : ℕ) (db db' : Store Value)
      → next_free_slot env moment channel post_id requested_at db ≡ ok (slot, db')
      → ((b : PostRow Value)
          → Mem b db.posts
          → Rival channel.id post_id b
          → b.cadence_slot_at ≢ some slot)
        × (requested_at ≤ slot)
        × (moment.local ≤ slot)
        × IsSlot env.chrono channel slot
        × (db' ≡ db)
  unfolding next_free_slot
  next_free_slot-IsFree channel post_id requested_at slot db db' h =
      let (found, same) = lift-ok _ db db' slot h in
      let (free, later, present, on_grid) =
        search_free_slot-IsSlot env.chrono moment.local (cadence_slots channel.id post_id db.posts)
          channel requested_at slot found in
      (
        λ b m r.
            slots-free channel.id post_id slot b db.posts free m
              (Rival-is_rival channel.id post_id b r),
        later,
        present,
        on_grid,
        same,
      )
