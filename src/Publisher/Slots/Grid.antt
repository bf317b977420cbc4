-- ===== src/Publisher/Slots/Grid.antt =====
-- The slot that is found is the first of the channel's grid.
use sooqa.Prelude.{
  ℕ, zero, suc, ◌+◌, ◌*◌, ◌≤◌, ◌<◌, ◌≡◌, ◌↔◌, refl, sym, subst, arith, true, if◌then◌else◌,
  Bool-cases, ◌⊎◌, inl, inr, leb, ltb, ◌&&◌, List, [], ◌∷◌, Option, none, some,
}
use sooqa.Prelude.Tables.Rewrites.{Mem, here, there}
use sooqa.Publisher.Slots.{Chrono, earlier_of, is_earlier, scan_day}

-- The least of the instants that are not before the candidate, if there is one.
abbrev pub IsLeast : (ℕ → Type 0) → ℕ → Option ℕ → Type 0
IsLeast P candidate none = (i : ℕ) → P i → i < candidate
IsLeast P candidate (some e) = P e × ((candidate ≤ e) × ((i : ℕ) → P i → candidate ≤ i → e ≤ i))

-- An instant of the grid of one day.
abbrev pub OnGrid : {Zone : Type 0} → Chrono Zone → Zone → ℕ → ℕ → ℕ → ℕ → Type 0
OnGrid chrono zone step target end_target i =
    (k : ℕ) × ((target + k * step < end_target)
      × Mem i (chrono.from_local_datetime zone (target + k * step)))

IsLeast-iff :
    (P Q : ℕ → Type 0) (candidate : ℕ) (o : Option ℕ)
    → ((i : ℕ) → P i ↔ Q i)
    → IsLeast P candidate o
    → IsLeast Q candidate o
IsLeast-iff P Q candidate none f h = λ i q. h i ((f i).1 q)
IsLeast-iff P Q candidate (some e) f h = ((f e).0 h.0, (h.1.0, λ i q c. h.1.1 i ((f i).1 q) c))

IsLeast-add :
    (P : ℕ → Type 0) (candidate result : ℕ) (o : Option ℕ)
    → IsLeast P candidate o
    → IsLeast
        (λ i. P i ⊎ (i ≡ result))
        candidate
        (if leb candidate result && is_earlier result o then some result else o)
IsLeast-add P candidate result none h = elim (Bool-cases (leb candidate result)) [
  | inl e ↦ rw e (
    inr refl,
    (leb_of e, λ i q c. elim q [ inl p ↦ absurd (late i (h i p) c) | inr same ↦ omega arith ]),
  )
  | inr e ↦ rw e λ i q. elim q [ inl p ↦ h i p | inr same ↦ ground arith ]
]
  where
    leb_of : leb candidate result ≡ true → candidate ≤ result
    leb_of e = ground arith

    late : {A : Type 0} (i : ℕ) → i < candidate → candidate ≤ i → A
    late i l c = absurd (omega arith)
IsLeast-add P candidate result (some e) (p, (c, least)) =
    elim (Bool-cases (leb candidate result && ltb result e)) [
      | inl better ↦ rw better (
        inr refl,
        (
          ground arith,
          λ i q ci. elim q [ inl pi ↦ ground (arith, least i pi ci) | inr same ↦ omega arith ],
        ),
      )
      | inr worse ↦
          rw worse
            (inl p, (c, λ i q ci. elim q [ inl pi ↦ least i pi ci | inr same ↦ ground arith ]))
    ]

no_rows : {P : Type 0} (i : ℕ) {rows : List ℕ} → Mem i rows → rows ≡ [] → P
no_rows i here e = absurd (cc e)
no_rows i (there m) e = absurd (cc e)

no_member : {P : Type 0} (i : ℕ) → Mem i [] → P
no_member i m = no_rows i m refl

cons_member :
    (P : ℕ → Type 0) (i result : ℕ) (resolved : List ℕ)
    → ((P i ⊎ (i ≡ result)) ⊎ Mem i resolved) ↔ (P i ⊎ Mem i (result ∷ resolved))
cons_member P i result resolved = (to, from)
  where
    to : (P i ⊎ (i ≡ result)) ⊎ Mem i resolved → P i ⊎ Mem i (result ∷ resolved)
    to (inl (inl p)) = inl p
    to (inl (inr e)) = inr (subst (λ x. Mem x (result ∷ resolved)) (sym e) here)
    to (inr m) = inr (there m)

    uncons : {rows : List ℕ} → Mem i rows → rows ≡ result ∷ resolved → (i ≡ result) ⊎ Mem i resolved
    uncons here e = inl cc
    uncons (there {b} {rows} m) e =
        let same : rows ≡ resolved = cc in inr (subst (λ (xs : List ℕ). Mem i xs) same m)

    from : P i ⊎ Mem i (result ∷ resolved) → (P i ⊎ (i ≡ result)) ⊎ Mem i resolved
    from (inl p) = inl (inl p)
    from (inr m) = elim (uncons m refl) [ inl e ↦ inl (inr e) | inr m' ↦ inr m' ]

earlier_of-IsLeast :
    (P : ℕ → Type 0) (candidate : ℕ) (resolved : List ℕ) (o : Option ℕ)
    → IsLeast P candidate o
    → IsLeast (λ i. P i ⊎ Mem i resolved) candidate (earlier_of candidate resolved o)
unfolding earlier_of
earlier_of-IsLeast P candidate [] o h =
    IsLeast-iff P _ candidate o (λ i. (inl, elim [ inl p ↦ p | inr m ↦ no_member i m ])) h
earlier_of-IsLeast P candidate (result ∷ resolved) o h =
    IsLeast-iff (λ i. (P i ⊎ (i ≡ result)) ⊎ Mem i resolved) _ candidate _
      (λ i. cons_member P i result resolved)
      (earlier_of-IsLeast (λ i. P i ⊎ (i ≡ result)) candidate resolved _
        (IsLeast-add P candidate result o h))

module _ {Zone : Type 0} (chrono : Chrono Zone) (zone : Zone) (step end_target : ℕ) where
  first_target :
      (P : ℕ → Type 0) (target i : ℕ)
      → target < end_target
      → ((P i ⊎ Mem i (chrono.from_local_datetime zone target))
          ⊎ OnGrid chrono zone step (target + step) end_target i)
        ↔ (P i ⊎ OnGrid chrono zone step target end_target i)
  first_target P target i lo = (to, from)
    where
      to :
          (P i ⊎ Mem i (chrono.from_local_datetime zone target))
            ⊎ OnGrid chrono zone step (target + step) end_target i
          → P i ⊎ OnGrid chrono zone step target end_target i
      to (inl (inl p)) = inl p
      to (inl (inr m)) =
          let same : target ≡ target + 0 * step = omega arith in
          inr (0, (omega arith, subst (λ t. Mem i (chrono.from_local_datetime zone t)) same m))
      to (inr (k, (l, m))) =
          let same : target + step + k * step ≡ target + suc k * step = omega arith in
          inr (
            suc k,
            (
              subst (λ t. t < end_target) same l,
              subst (λ t. Mem i (chrono.from_local_datetime zone t)) same m,
            ),
          )

      from :
          P i ⊎ OnGrid chrono zone step target end_target i
          → (P i ⊎ Mem i (chrono.from_local_datetime zone target))
            ⊎ OnGrid chrono zone step (target + step) end_target i
      from (inl p) = inl (inl p)
      from (inr (zero, (l, m))) =
          let same : target + 0 * step ≡ target = omega arith in
          inl (inr (subst (λ t. Mem i (chrono.from_local_datetime zone t)) same m))
      from (inr (suc k, (l, m))) =
          let same : target + suc k * step ≡ target + step + k * step = omega arith in
          inr (
            k,
            (
              subst (λ t. t < end_target) same l,
              subst (λ t. Mem i (chrono.from_local_datetime zone t)) same m,
            ),
          )

  no_target :
      {A : Type 0} (target i : ℕ)
      → end_target ≤ target
      → OnGrid chrono zone step target end_target i
      → A
  no_target target i h (k, (l, m)) = absurd (omega arith)

  -- With rounds for the rest of the day, the loop adds all of its grid.
  pub scan_day-IsLeast :
      (P : ℕ → Type 0) (candidate rounds target : ℕ) (o : Option ℕ)
      → end_target ≤ target + rounds * step
      → IsLeast P candidate o
      → IsLeast
          (λ i. P i ⊎ OnGrid chrono zone step target end_target i)
          candidate
          (scan_day chrono rounds zone candidate step target end_target o)
  unfolding scan_day
  scan_day-IsLeast P candidate zero target o enough h =
      IsLeast-iff P _ candidate o
        (λ i. (inl, elim [ inl p ↦ p | inr g ↦ no_target target i (omega arith) g ])) h
  scan_day-IsLeast P candidate (suc rounds) target o enough h =
      elim (Bool-cases (ltb target end_target)) [
        | inl e ↦ rw e (
            IsLeast-iff
              (λ i.
                (P i ⊎ Mem i (chrono.from_local_datetime zone target))
                ⊎ OnGrid chrono zone step (target + step) end_target i)
              _ candidate _ (λ i. first_target P target i (ground arith))
              (scan_day-IsLeast (λ i. P i ⊎ Mem i (chrono.from_local_datetime zone target))
                candidate rounds (target + step) _ (omega arith)
                (earlier_of-IsLeast P candidate (chrono.from_local_datetime zone target) o h)))
        | inr e ↦ rw e (
            IsLeast-iff P _ candidate o
              (λ i. (inl, elim [ inl p ↦ p | inr g ↦ no_target target i (ground arith) g ])) h)
      ]
