-- ===== src/Publisher/Intent/Normal.antt =====
-- Intents and keys that were accepted are in normal form: they are accepted again as they are.
use sooqa.Prelude.{
  ℕ, ◌≤◌, ◌≡◌, refl, subst, arith, false, ltb, List, length, ok, fail_if, >>=-elim, fail_if_passed,
}
use sooqa.Prelude.Text.{trim}
use sooqa.Prelude.Text.Trim.{trim-twice}
use sooqa.Publisher.Intent.{
  normalize_request_key, is_empty, max_request_key_length, empty_request_key, request_key_too_long,
}

-- A request key that is accepted is trimmed, not empty and of at most 255 characters, and it is
-- accepted again as it is.
pub normalize_request_key-twice :
    (value key : List ℕ)
    → normalize_request_key value ≡ ok key
    → (key ≡ trim value)
      × (is_empty key ≡ false)
      × (length key ≤ max_request_key_length)
      × (normalize_request_key key ≡ ok key)
unfolding normalize_request_key
normalize_request_key-twice value key h =
    >>=-elim (fail_if (is_empty (trim value)) empty_request_key) _ h λ _ full h1.
      >>=-elim
        (fail_if (ltb max_request_key_length (length (trim value)))
          (request_key_too_long max_request_key_length))
        _ h1
        λ _ short h2.
          let same : trim value ≡ key = cc in
          let accepted_again : normalize_request_key (trim value) ≡ ok (trim value) =
            rw (normalize_request_key, trim-twice value, full, short) refl in
          subst
            (λ (k : List ℕ).
              (k ≡ trim value)
              × (is_empty k ≡ false)
              × (length k ≤ max_request_key_length)
              × (normalize_request_key k ≡ ok k))
            same (refl, fail_if_passed _ empty_request_key full, ground arith, accepted_again)
