-- ===== src/Publisher/Slots/Free.antt =====
-- The slots that the two searches give.
use sooqa.Prelude.{
  ℕ, zero, suc, ◌+◌, ◌*◌, ◌≤◌, ◌≡◌, arith, true, false, Bool-cases, inl, inr, List, some, max,
  subst, Result, ok, >>=-elim, ok_or, fail_if, ok_or-eq-ok, fail_if_passed,
}
use sooqa.Prelude.Int.{pos, pos_part, leb_ℤ}
use sooqa.Publisher.Posts.{PublisherRepositoryError, invalid_time_zone, cadence_search_exhausted}
use sooqa.Publisher.Slots.{
  Chrono, ChannelRow, next_allowed_slot, search_free_slot, free_slot, to_chrono, contains,
  nanos_per_minute, nanos_per_second,
}
use sooqa.Publisher.Slots.Search.{IsFirst, Allowed, scan_days-IsFirst}

-- A slot, as a result.
abbrev slot_result : ℕ → Result PublisherRepositoryError ℕ
slot_result slot = ok slot

ok_arg : {a b : ℕ} → slot_result a ≡ ok b → a ≡ b
ok_arg h = cc

module _ {Zone : Type 0} (chrono : Chrono Zone) where
  -- The nanoseconds between two slots of the channel.
  abbrev pub slot_step : ChannelRow → ℕ
  slot_step channel = pos_part channel.interval_minutes * nanos_per_minute

  -- For a channel with a known time zone and a positive interval, and a request that chrono can hold, the
  -- slot that is found stands on the grid of its day, is not before the request, is the earliest such of its
  -- day, and no day from the request's local date to it has one; where the search is exhausted, no day of the
  -- 370 from that date has one; the only other error is that the slot's instant cannot be given back.
  pub next_allowed_slot-IsFirst :
      (requested : ℕ) (channel : ChannelRow) (zone : Zone)
      → chrono.parse_zone channel.time_zone ≡ some zone
      → chrono.is_timestamp requested ≡ true
      → leb_ℤ channel.interval_minutes (pos 0) ≡ false
      → IsFirst chrono zone channel.window_start channel.window_end
          (slot_step channel)
          requested
          370
          (chrono.local_date zone requested)
          (next_allowed_slot chrono requested channel)
  unfolding next_allowed_slot to_chrono
  next_allowed_slot-IsFirst requested channel zone known held positive =
      rw (next_allowed_slot, known, held, positive)
        (scan_days-IsFirst chrono zone channel.window_start channel.window_end (slot_step channel)
          requested (ground arith) 370 (chrono.local_date zone requested))

  -- An instant of the grid of some day of the channel.
  pub record IsSlot (channel : ChannelRow) (slot : ℕ) : Type 0 where
    pub zone : Zone
    pub known : chrono.parse_zone channel.time_zone ≡ some zone
    pub date : ℕ
    pub allowed :
        Allowed chrono zone channel.window_start channel.window_end (slot_step channel) date slot

  to_chrono-held :
      (value : ℕ) (same : ℕ) → to_chrono chrono value ≡ ok same → chrono.is_timestamp value ≡ true
  unfolding to_chrono
  to_chrono-held value same h = ground arith

  next_allowed_slot-IsSlot :
      (requested : ℕ) (channel : ChannelRow) (slot : ℕ)
      → next_allowed_slot chrono requested channel ≡ ok slot
      → (requested ≤ slot) × IsSlot channel slot
  unfolding next_allowed_slot
  next_allowed_slot-IsSlot requested channel slot h =
      >>=-elim (ok_or (chrono.parse_zone channel.time_zone) (invalid_time_zone channel.time_zone)) _
        h
        λ zone parsed h1. >>=-elim (to_chrono chrono requested) _ h1 λ candidate converted h2.
          >>=-elim (fail_if (leb_ℤ channel.interval_minutes (pos 0)) cadence_search_exhausted) _ h2
            λ _ positive h3.
              let known : chrono.parse_zone channel.time_zone ≡ some zone =
                ok_or-eq-ok _ (invalid_time_zone channel.time_zone) parsed in
              let (date, (lo, (least, before))) =
                subst
                  (λ (r : Result PublisherRepositoryError ℕ).
                    IsFirst chrono zone channel.window_start channel.window_end (slot_step channel)
                      requested 370 (chrono.local_date zone requested) r)
                  h
                  (next_allowed_slot-IsFirst requested channel zone known
                    (to_chrono-held requested candidate converted)
                    (fail_if_passed _ cadence_search_exhausted positive)) in
              (least.1.0, record { zone = zone; known = known; date = date; allowed = least.0 })

  free_slot-IsSlot :
      (rounds : ℕ) (occupied : List ℕ) (channel : ChannelRow) (candidate slot : ℕ)
      → IsSlot channel candidate
      → free_slot chrono rounds occupied channel candidate ≡ ok slot
      → (contains occupied slot ≡ false) × (candidate ≤ slot) × IsSlot channel slot
  unfolding free_slot
  free_slot-IsSlot zero occupied channel candidate slot s h = absurd (cc h)
  free_slot-IsSlot (suc rounds) occupied channel candidate slot s h =
      elim (Bool-cases (contains occupied candidate)) [
        | inl taken ↦
            >>=-elim (next_allowed_slot chrono (candidate + nanos_per_second) channel) _
              (rw taken at h)
              λ later found h1.
                let next =
                  next_allowed_slot-IsSlot (candidate + nanos_per_second) channel later found in
                let (free, after, s') =
                  free_slot-IsSlot rounds occupied channel later slot next.1 h1 in
                (free, omega (arith, next.0), s')
        | inr open_slot ↦
            let same : candidate ≡ slot = ok_arg (rw open_slot at h) in
            subst (λ (x : ℕ). (contains occupied x ≡ false) × (candidate ≤ x) × IsSlot channel x)
              same (open_slot, omega arith, s)
      ]

  -- The slot that the search finds is not one of the occupied slots, is neither before the request nor before the
  -- present, and stands on the grid of a day of the channel.
  pub search_free_slot-IsSlot :
      (local : ℕ) (occupied : List ℕ) (channel : ChannelRow) (requested_at slot : ℕ)
      → search_free_slot chrono local occupied channel requested_at ≡ ok slot
      → (contains occupied slot ≡ false)
        × (requested_at ≤ slot)
        × (local ≤ slot)
        × IsSlot channel slot
  unfolding search_free_slot
  search_free_slot-IsSlot local occupied channel requested_at slot h =
      >>=-elim (next_allowed_slot chrono (max requested_at local) channel) _ h λ first found h1.
        let start = next_allowed_slot-IsSlot (max requested_at local) channel first found in
        let (free, after, s) = free_slot-IsSlot 10000 occupied channel first slot start.1 h1 in
        (free, omega (arith, start.0), omega (arith, start.0), s)
