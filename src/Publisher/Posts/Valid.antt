-- ===== src/Publisher/Posts/Valid.antt =====
-- What the table keeps of a post in every state, and how the commands' updates keep it.
use sooqa.Prelude.{
  ℕ, ◌≡◌, refl, sym, subst, ap, String, true, false, ◌||◌, ◌⊎◌, inl, inr, Option, none, some,
  Result, ok, err, map_err,
}
use sooqa.Prelude.Strings.{str_eq, str_eq_iff}
use sooqa.Prelude.Int.{ℤ, pos, leb_ℤ}
use sooqa.Publisher.Posts.{
  PostState, PostRow, as_str, post_state, post_state_try_from, invalid_state, is_queue_mutable,
  draft, queued, sending, published, unknown, failed, cancelled,
}
use sooqa.Publisher.Posts.Names.{post_state_try_from_iff}

-- A token and a time of its start while the post is sent, and neither in any other state.
abbrev pub IsFenced : String → Option ℕ → Option ℕ → Type 0
IsFenced state token started =
    ((str_eq state "sending" ≡ true)
      × (((t : ℕ) × (token ≡ some t)) × ((t : ℕ) × (started ≡ some t))))
    ⊎ ((str_eq state "sending" ≡ false) × ((token ≡ none) × (started ≡ none)))

-- A published post has the message's positive id, and the time.
abbrev pub IsMessage : Option ℤ → Option ℕ → Type 0
IsMessage message published_at =
    ((m : ℤ) × ((message ≡ some m) × (leb_ℤ m (pos 0) ≡ false)))
    × ((t : ℕ) × (published_at ≡ some t))

module _ {Value : Type 0} where
  pub record IsPost (row : PostRow Value) : Type 0 where
    pub fence : IsFenced row.state row.send_token row.send_started_at
    pub message :
        (str_eq row.state "published" ≡ false) ⊎ IsMessage row.telegram_message_id row.published_at
    -- a cadence slot is the time of the post
    pub slot : (row.cadence_slot_at ≡ none) ⊎ (row.cadence_slot_at ≡ some row.scheduled_at)
    -- evidence of a repeat keeps the post from the queue
    pub reviewed :
        (row.repeat_evidence ≡ none)
        ⊎ ((str_eq row.state "draft" || str_eq row.state "cancelled") ≡ true)

  post_state-as_str :
      (row : PostRow Value) (s : PostState) → post_state row ≡ ok s → row.state ≡ as_str s
  unfolding post_state
  post_state-as_str row s h =
      (post_state_try_from_iff row.state s).0 (unwrapped (post_state_try_from row.state) h)
    where
      unwrapped : (r : Result String PostState) → map_err invalid_state r ≡ ok s → r ≡ ok s
      unwrapped (ok x) e = cc
      unwrapped (err x) e = cc

  -- A post that waits is not being sent.
  pub mutable-not_sending :
      (row : PostRow Value) (s : PostState)
      → post_state row ≡ ok s
      → is_queue_mutable s ≡ true
      → str_eq row.state "sending" ≡ false
  unfolding is_queue_mutable as_str
  mutable-not_sending row draft h m = ap (λ x. str_eq x "sending") (post_state-as_str row draft h)
  mutable-not_sending row queued h m = ap (λ x. str_eq x "sending") (post_state-as_str row queued h)
  mutable-not_sending row failed h m = ap (λ x. str_eq x "sending") (post_state-as_str row failed h)
  mutable-not_sending row sending h m = absurd (cc m)
  mutable-not_sending row published h m = absurd (cc m)
  mutable-not_sending row unknown h m = absurd (cc m)
  mutable-not_sending row cancelled h m = absurd (cc m)

  pub not_sending-token :
      (row : PostRow Value)
      → IsPost row
      → str_eq row.state "sending" ≡ false
      → (row.send_token ≡ none) × (row.send_started_at ≡ none)
  not_sending-token row v h = elim v.fence [
    | inl held ↦ absurd (cc (held.0, h))
    | inr free ↦ free.1
  ]

  -- A post whose state keeps no evidence has none.
  pub reviewed-none :
      (row : PostRow Value) (name : String)
      → IsPost row
      → str_eq row.state name ≡ true
      → (str_eq name "draft" || str_eq name "cancelled") ≡ false
      → row.repeat_evidence ≡ none
  reviewed-none row name v h other = elim v.reviewed [
    | inl none_left ↦ none_left
    | inr kept ↦
        let same : row.state ≡ name = (str_eq_iff row.state name).0 h in
        let again : (str_eq name "draft" || str_eq name "cancelled") ≡ true =
          subst (λ s. (str_eq s "draft" || str_eq s "cancelled") ≡ true) same kept in
        absurd (cc (again, other))
  ]

  -- One state is not another.
  pub state_is-not :
      (row : PostRow Value) (a b : String)
      → str_eq row.state a ≡ true
      → str_eq a b ≡ false
      → str_eq row.state b ≡ false
  state_is-not row a b h other =
      let same : row.state ≡ a = (str_eq_iff row.state a).0 h in
      subst (λ s. str_eq s b ≡ false) (sym same) other

  -- A post that is not published, not lost and not cancelled.
  abbrev pub IsOpen : PostRow Value → Type 0
  IsOpen row =
      (str_eq row.state "published" ≡ false)
      × ((str_eq row.state "unknown" ≡ false) × (str_eq row.state "cancelled" ≡ false))

  IsOpen-as :
      (row : PostRow Value) (name : String)
      → row.state ≡ name
      → (str_eq name "published" ≡ false)
        × ((str_eq name "unknown" ≡ false) × (str_eq name "cancelled" ≡ false))
      → IsOpen row
  IsOpen-as row name e h =
      subst
        (λ s.
          (str_eq s "published" ≡ false)
          × ((str_eq s "unknown" ≡ false) × (str_eq s "cancelled" ≡ false)))
        (sym e) h

  -- A post that waits is open, and so is one that is being sent.
  pub mutable-IsOpen :
      (row : PostRow Value) (s : PostState)
      → post_state row ≡ ok s
      → is_queue_mutable s ≡ true
      → IsOpen row
  unfolding is_queue_mutable as_str
  mutable-IsOpen row draft h m =
      IsOpen-as row "draft" (post_state-as_str row draft h) (refl, (refl, refl))
  mutable-IsOpen row queued h m =
      IsOpen-as row "queued" (post_state-as_str row queued h) (refl, (refl, refl))
  mutable-IsOpen row failed h m =
      IsOpen-as row "failed" (post_state-as_str row failed h) (refl, (refl, refl))
  mutable-IsOpen row sending h m = absurd (cc m)
  mutable-IsOpen row published h m = absurd (cc m)
  mutable-IsOpen row unknown h m = absurd (cc m)
  mutable-IsOpen row cancelled h m = absurd (cc m)

  pub sending-IsOpen : (row : PostRow Value) → str_eq row.state "sending" ≡ true → IsOpen row
  sending-IsOpen row h =
      IsOpen-as row "sending" ((str_eq_iff row.state "sending").0 h) (refl, (refl, refl))

  pub queued-IsOpen : (row : PostRow Value) → str_eq row.state "queued" ≡ true → IsOpen row
  queued-IsOpen row h =
      IsOpen-as row "queued" ((str_eq_iff row.state "queued").0 h) (refl, (refl, refl))
