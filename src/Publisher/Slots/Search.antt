-- ===== src/Publisher/Slots/Search.antt =====
-- The search over the days gives the first slot that is not before the request, and the search over the
-- slots one that no other post holds.
use sooqa.Prelude.{
  ℕ, zero, suc, ◌+◌, ◌-◌, ◌*◌, ◌≤◌, ◌<◌, ◌≡◌, refl, subst, arith, Bool-cases, ◌⊎◌, inl, inr, ◌==◌,
  Option, none, some, Option-cases, Result, ok, err, div_ceil_bounds,
}
use sooqa.Publisher.Posts.{PublisherRepositoryError, invalid_timestamp, cadence_search_exhausted}
use sooqa.Publisher.Slots.{Chrono, scan_day, scan_days, day_rounds, from_chrono, local_time}
use sooqa.Publisher.Slots.Grid.{IsLeast, OnGrid, scan_day-IsLeast}

module _ {Zone : Type 0} (chrono : Chrono Zone) where
  -- The grid of a date: every `step` from the window's start, before its end.
  abbrev pub Allowed : Zone → ℕ → ℕ → ℕ → ℕ → ℕ → Type 0
  Allowed zone start end_time step date i =
      OnGrid chrono zone step (local_time date start) (local_time date end_time) i

  -- The days from `first` to before `date` have no slot left.
  abbrev pub NoneBefore : Zone → ℕ → ℕ → ℕ → ℕ → ℕ → ℕ → Type 0
  NoneBefore zone start end_time step candidate first date =
      (d : ℕ)
      → first ≤ d
      → d < date
      → (i : ℕ) → Allowed zone start end_time step d i
      → i < candidate

  -- A slot is the earliest of its day, and no day before has one; without a slot, no day of the search has one.
  abbrev pub IsFirst : Zone → ℕ → ℕ → ℕ → ℕ → ℕ → ℕ → Result PublisherRepositoryError ℕ → Type 0
  IsFirst zone start end_time step candidate days first (ok slot) =
      (date : ℕ) × ((first ≤ date)
        × (IsLeast (Allowed zone start end_time step date) candidate (some slot)
            × NoneBefore zone start end_time step candidate first date))
  IsFirst zone start end_time step candidate days first (err e) =
      (e ≡ invalid_timestamp)
      ⊎ ((e ≡ cadence_search_exhausted)
          × NoneBefore zone start end_time step candidate first (first + days))

  enough_rounds :
      (date start end_time step : ℕ)
      → 0 < step
      → local_time date end_time
        ≤ local_time date start + day_rounds chrono start end_time step * step
  enough_rounds date start end_time step h =
      omega (arith, (div_ceil_bounds (end_time - start) step h).0)

  drop_before :
      (P : ℕ → Type 0) (candidate : ℕ) (o : Option ℕ)
      → IsLeast (λ i. (i < candidate) ⊎ P i) candidate o
      → IsLeast P candidate o
  drop_before P candidate none h = λ i p. h i (inr p)
  drop_before P candidate (some e) (inl l, (c, least)) = absurd (omega arith)
  drop_before P candidate (some e) (inr p, (c, least)) = (p, (c, λ i q. least i (inr q)))

  module _ (zone : Zone) (start end_time step candidate : ℕ) (h : 0 < step) where
    day_slot : ℕ → Option ℕ
    day_slot date =
        scan_day chrono (day_rounds chrono start end_time step) zone candidate step
          (local_time date start) (local_time date end_time) none

    day_slot-IsLeast :
        (date : ℕ) → IsLeast (Allowed zone start end_time step date) candidate (day_slot date)
    unfolding day_slot
    day_slot-IsLeast date = drop_before (Allowed zone start end_time step date) candidate _ (
        scan_day-IsLeast chrono zone step (local_time date end_time) (λ i. i < candidate) candidate
          (day_rounds chrono start end_time step) (local_time date start) none
          (enough_rounds date start end_time step h) (λ i l. l))

    none_more :
        (date limit : ℕ)
        → day_slot date ≡ none
        → NoneBefore zone start end_time step candidate (date + 1) limit
        → NoneBefore zone start end_time step candidate date limit
    none_more date limit e later d lo hi i a = elim (Bool-cases (d == date)) [
      | inl same ↦
          let today : d ≡ date = ground arith in
          let empty : IsLeast (Allowed zone start end_time step date) candidate none =
            subst (λ o. IsLeast (Allowed zone start end_time step date) candidate o) e
              (day_slot-IsLeast date) in
          empty i (subst (λ x. Allowed zone start end_time step x i) today a)
      | inr other ↦ later d (ground arith) hi i a
    ]

    IsFirst-later :
        (days date : ℕ) (r : Result PublisherRepositoryError ℕ)
        → day_slot date ≡ none
        → IsFirst zone start end_time step candidate days (date + 1) r
        → IsFirst zone start end_time step candidate (suc days) date r
    IsFirst-later days date (ok slot) e (d, (lo, (least, before))) =
        (d, (omega arith, (least, none_more date d e before)))
    IsFirst-later days date (err x) e (inl lost) = inl lost
    IsFirst-later days date (err x) e (inr (gone, before)) =
        let same : date + 1 + days ≡ date + suc days = omega arith in
        inr (
          gone,
          subst (λ l. NoneBefore zone start end_time step candidate date l) same
              (none_more date (date + 1 + days) e before),
        )

    from_chrono-IsFirst :
        (days date slot : ℕ)
        → day_slot date ≡ some slot
        → IsFirst zone start end_time step candidate (suc days) date (from_chrono chrono slot)
    unfolding from_chrono
    from_chrono-IsFirst days date slot e = elim (Bool-cases (chrono.has_nanos slot)) [
      | inl has ↦ rw has (
        date,
        (
          omega arith,
          (
            subst (λ o. IsLeast (Allowed zone start end_time step date) candidate o) e
                (day_slot-IsLeast date),
            λ d lo hi. absurd (omega arith),
          ),
        ),
      )
      | inr lacks ↦ rw lacks (inl refl)
    ]

    pub scan_days-IsFirst :
        (days date : ℕ)
        → IsFirst zone start end_time step candidate days date
            (scan_days chrono days zone candidate start end_time step date)
    unfolding scan_days day_slot
    scan_days-IsFirst zero date = inr (refl, λ d lo hi. absurd (omega arith))
    scan_days-IsFirst (suc days) date = elim (Option-cases (day_slot date)) [
      | inl e ↦ rw (e, scan_days) (IsFirst-later days date _ e (scan_days-IsFirst days (date + 1)))
      | inr (slot, e) ↦ rw (e, scan_days) (from_chrono-IsFirst days date slot e)
    ]
