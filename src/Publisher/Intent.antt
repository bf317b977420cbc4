-- ===== src/Publisher/Intent.antt =====
-- Publication intents, request keys and captions. A text is the list of its code points.
pub mod Normal
pub mod Accepted
use sooqa.Prelude.{
  ℕ, Bool, true, false, ◌&&◌, ◌||◌, not, ltb, ◌==◌, if◌then◌else◌, List, [], ◌∷◌, length, Option,
  none, some, Result, ok, err, fail_if, ◌>>=◌, ◌>>◌,
}
use sooqa.Prelude.Int.{ℤ, pos, ltb_ℤ}
use sooqa.Prelude.Text.{trim, is_control}

pub data PublicationAction : Type 0 where
  queue post_now : PublicationAction

pub data PublicationDecision : Type 0 where
  post_now_anyway queue_anyway keep_exact_time cancel : PublicationDecision

pub data PublisherValidationError : Type 0 where
  empty_request_key caption_control_character invalid_parse_mode : PublisherValidationError
  invalid_expected_revision post_now_time_not_allowed : PublisherValidationError
  request_key_too_long caption_too_long : ℕ → PublisherValidationError

pub record PublicationIntent : Type 0 where
  pub action : PublicationAction
  pub requested_publish_at : Option ℕ
  pub caption : Option (List ℕ)

abbrev pub max_request_key_length : ℕ
max_request_key_length = 255

abbrev pub max_caption_length : ℕ
max_caption_length = 1024

unfoldable pub validate_expected_revision : ℤ → Result PublisherValidationError (Unit {0})
validate_expected_revision expected_revision =
    fail_if (ltb_ℤ expected_revision (pos 0)) invalid_expected_revision

abbrev pub is_empty : List ℕ → Bool
is_empty [] = true
is_empty (c ∷ cs) = false

unfoldable pub normalize_request_key : List ℕ → Result PublisherValidationError (List ℕ)
normalize_request_key value = do
  fail_if (is_empty (trim value)) empty_request_key
  fail_if (ltb max_request_key_length (length (trim value)))
      (request_key_too_long max_request_key_length)
  ok (trim value)

abbrev pub any : (ℕ → Bool) → List ℕ → Bool
any p [] = false
any p (c ∷ cs) = p c || any p cs

-- A control character that is no line feed, carriage return or tab.
abbrev pub is_disallowed : ℕ → Bool
is_disallowed c = is_control c && not (c == 10 || c == 13 || c == 9)

unfoldable pub validate_caption : List ℕ → Result PublisherValidationError (Unit {0})
validate_caption caption = do
  fail_if (ltb max_caption_length (length caption)) (caption_too_long max_caption_length)
  fail_if (any is_disallowed caption) caption_control_character

abbrev pub is_some : {A : Type 0} → Option A → Bool
is_some none = false
is_some (some a) = true

abbrev pub is_post_now : PublicationAction → Bool
is_post_now queue = false
is_post_now post_now = true

-- `caption.map(trim).filter(not empty)`
abbrev pub normal_caption : Option (List ℕ) → Option (List ℕ)
normal_caption none = none
normal_caption (some value) = if is_empty (trim value) then none else some (trim value)

abbrev pub validate_optional : Option (List ℕ) → Result PublisherValidationError (Unit {0})
validate_optional none = ok tt
validate_optional (some caption) = validate_caption caption

unfoldable pub try_new :
    PublicationAction
    → Option ℕ
    → Option (List ℕ)
    → Result PublisherValidationError PublicationIntent
try_new action requested_publish_at caption = do
  fail_if (is_post_now action && is_some requested_publish_at) post_now_time_not_allowed
  validate_optional (normal_caption caption)
  ok (record {
    action = action;
    requested_publish_at = requested_publish_at;
    caption = normal_caption caption;
  })

-- `decision_allowed` of crates/persistence/src/publisher.rs
unfoldable pub decision_allowed : PublicationAction → Option ℕ → PublicationDecision → Bool
decision_allowed post_now requested post_now_anyway = true
decision_allowed post_now requested queue_anyway = true
decision_allowed post_now requested cancel = true
decision_allowed post_now requested keep_exact_time = false
decision_allowed queue requested queue_anyway = true
decision_allowed queue requested keep_exact_time = is_some requested
decision_allowed queue requested cancel = true
decision_allowed queue requested post_now_anyway = false
