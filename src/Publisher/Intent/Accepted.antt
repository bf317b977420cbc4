-- ===== src/Publisher/Intent/Accepted.antt =====
-- Which intents `PublicationIntent::try_new` accepts, and what they hold.
use sooqa.Prelude.{
  ℕ, ◌≤◌, ◌≡◌, ◌↔◌, refl, sym, subst, arith, true, false, Bool, ◌&&◌, ◌||◌, Bool-cases, ◌⊎◌, inl,
  inr, ltb, List, [], ◌∷◌, length, All, Option, none, some, ok, fail_if, >>=-elim, fail_if_passed,
}
use sooqa.Prelude.Text.{trim, is_control}
use sooqa.Publisher.Intent.{
  PublicationAction, queue, post_now, PublicationIntent, try_new, normal_caption, validate_optional,
  validate_caption, is_empty, is_post_now, is_some, any, is_disallowed, max_caption_length,
  post_now_time_not_allowed, caption_too_long, caption_control_character,
}

-- At most 1024 characters, and no control character but a line feed, a carriage return and a tab.
pub record IsCaption (text : List ℕ) : Type 0 where
  pub short : length text ≤ 1024
  pub printable : All (λ (c : ℕ). is_control c ≡ true → (c ≡ 10) ⊎ ((c ≡ 13) ⊎ (c ≡ 9))) text

-- The caption that is kept of the one that is given: its trimmed text, or none where that is empty.
pub data Kept : Option (List ℕ) → Option (List ℕ) → Type 0 where
  absent : Kept none none
  blank : {text : List ℕ} → trim text ≡ [] → Kept (some text) none
  trimmed :
      {text kept : List ℕ}
      → trim text ≡ kept
      → is_empty kept ≡ false
      → IsCaption kept
      → Kept (some text) (some kept)

allowed_one :
    (c : ℕ) → is_disallowed c ≡ false → is_control c ≡ true → (c ≡ 10) ⊎ ((c ≡ 13) ⊎ (c ≡ 9))
allowed_one c h held = ground arith

not_disallowed :
    (c : ℕ) → (is_control c ≡ true → (c ≡ 10) ⊎ ((c ≡ 13) ⊎ (c ≡ 9))) → is_disallowed c ≡ false
not_disallowed c h = elim (Bool-cases (is_control c)) [
  | inl e ↦ let one = h e in ground arith
  | inr e ↦ ground arith
]

Printable : List ℕ → Type 0
Printable text = All (λ (c : ℕ). is_control c ≡ true → (c ≡ 10) ⊎ ((c ≡ 13) ⊎ (c ≡ 9))) text

any-Printable : (text : List ℕ) → any is_disallowed text ≡ false → Printable text
unfolding Printable
any-Printable [] h = tt
any-Printable (c ∷ text) h =
    let (first, rest) = or_parts (is_disallowed c) (any is_disallowed text) h in
    (allowed_one c first, any-Printable text rest)
  where
    or_parts : (a b : Bool) → (a || b) ≡ false → (a ≡ false) × (b ≡ false)
    or_parts a b e = (ground arith, ground arith)

Printable-any : (text : List ℕ) → Printable text → any is_disallowed text ≡ false
unfolding Printable
Printable-any [] h = refl
Printable-any (c ∷ text) h = rw (not_disallowed c h.0) (Printable-any text h.1)

validate_caption-IsCaption : (text : List ℕ) → validate_caption text ≡ ok tt → IsCaption text
unfolding validate_caption Printable
validate_caption-IsCaption text h =
    >>=-elim (fail_if (ltb max_caption_length (length text)) (caption_too_long max_caption_length))
      _ h
      λ _ short h1.
        let fits = fail_if_passed _ (caption_too_long max_caption_length) short in
        record {
          short = ground arith;
          printable = any-Printable text (fail_if_passed _ caption_control_character h1);
        }

IsCaption-validate_caption : (text : List ℕ) → IsCaption text → validate_caption text ≡ ok tt
unfolding validate_caption Printable
IsCaption-validate_caption text v =
    let fits : ltb max_caption_length (length text) ≡ false = ground (arith, v.short) in
    rw (validate_caption, fits, Printable-any text v.printable) refl

kept-normal :
    (caption kept : Option (List ℕ))
    → Kept caption kept
    → (normal_caption caption ≡ kept) × (validate_optional kept ≡ ok tt)
kept-normal _ _ absent = (refl, refl)
kept-normal _ _ (blank {text} e) = (rw e refl, refl)
kept-normal _ _ (trimmed {text} {kept} e full v) =
    (rw (e, full) refl, IsCaption-validate_caption kept v)

normal-kept :
    (caption : Option (List ℕ))
    → validate_optional (normal_caption caption) ≡ ok tt
    → Kept caption (normal_caption caption)
normal-kept none h = absent
normal-kept (some text) h = elim (Bool-cases (is_empty (trim text))) [
  | inl e ↦ rw e (blank (empty_text (trim text) e))
  | inr e ↦ rw e (trimmed refl e (validate_caption-IsCaption (trim text) (rw e at h)))
]
  where
    empty_text : (t : List ℕ) → is_empty t ≡ true → t ≡ []
    empty_text [] e = refl
    empty_text (c ∷ t) e = absurd (cc e)

-- Only an intent that does not post at once may name a time.
abbrev pub MayName : PublicationAction → Option ℕ → Type 0
MayName queue requested = Unit
MayName post_now requested = requested ≡ none

MayName-iff :
    (action : PublicationAction) (requested : Option ℕ)
    → (is_post_now action && is_some requested) ≡ false ↔ MayName action requested
MayName-iff queue requested = ((λ _. tt), λ _. refl)
MayName-iff post_now none = ((λ _. refl), λ _. refl)
MayName-iff post_now (some t) = ((λ h. absurd (cc h)), λ h. absurd (cc h))

-- An intent is made exactly when it has the action and the time that are asked for, names no time if it posts
-- now, and keeps of the caption its trimmed text, which has at most 1024 characters and no control
-- character but a line feed, a carriage return and a tab, or none where the caption is none or blank.
pub try_new_iff :
    (action : PublicationAction) (requested : Option ℕ) (caption : Option (List ℕ))
    (intent : PublicationIntent)
    → try_new action requested caption ≡ ok intent
      ↔ (intent.action ≡ action)
        × (intent.requested_publish_at ≡ requested)
        × MayName action requested
        × Kept caption intent.caption
unfolding try_new
try_new_iff action requested caption intent = (made, holds)
  where
    made :
        try_new action requested caption ≡ ok intent
        → (intent.action ≡ action)
          × (intent.requested_publish_at ≡ requested)
          × MayName action requested
          × Kept caption intent.caption
    made h =
        >>=-elim (fail_if (is_post_now action && is_some requested) post_now_time_not_allowed) _ h
          λ _ timed h1. >>=-elim (validate_optional (normal_caption caption)) _ h1 λ _ valid h2.
            let accepted : PublicationIntent = record {
              action = action;
              requested_publish_at = requested;
              caption = normal_caption caption;
            } in
            let same : accepted ≡ intent = cc in
            subst
              (λ (x : PublicationIntent).
                (x.action ≡ action)
                × (x.requested_publish_at ≡ requested)
                × MayName action requested
                × Kept caption x.caption)
              same
              (
                refl,
                refl,
                (MayName-iff action requested).0 (fail_if_passed _ post_now_time_not_allowed timed),
                normal-kept caption valid,
              )

    holds :
        (intent.action ≡ action)
          × (intent.requested_publish_at ≡ requested)
          × MayName action requested
          × Kept caption intent.caption
        → try_new action requested caption ≡ ok intent
    holds (a, r, may, kept) =
        let (normal, valid) = kept-normal caption intent.caption kept in
        let time : (is_post_now action && is_some requested) ≡ false =
          (MayName-iff action requested).1 may in
        let accepted : validate_optional (normal_caption caption) ≡ ok tt = rw normal valid in
        rw (try_new, time, accepted, normal, sym a, sym r) refl
