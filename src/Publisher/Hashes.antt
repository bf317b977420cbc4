-- ===== src/Publisher/Hashes.antt =====
-- The commands of the repository and the hashes that their replays are compared by.
use sooqa.Prelude.{ℕ, String, Bool, List, ◌++◌, Option, Result, ok, ◌>>=◌, ◌>>◌}
use sooqa.Prelude.Int.{ℤ}
use sooqa.Prelude.Bytes.{to_be_bytes, i64_to_be_bytes}
use sooqa.Prelude.Strings.{codes}
use sooqa.Publisher.Intent.{
  PublicationDecision, PublisherValidationError, post_now_anyway, queue_anyway, keep_exact_time,
  cancel, normalize_request_key, validate_expected_revision,
}
use sooqa.Publisher.Store.{Environment}

-- `none` leaves a column as it is, and `some none` clears it.
pub record PostUpdate : Type 0 where
  pub caption : Option (Option (List ℕ))
  pub parse_mode : Option (Option (List ℕ))
  pub disable_notification : Option Bool
  pub expected_updated_at : Option ℕ
  pub expected_revision : ℤ

pub record PostSchedule : Type 0 where
  pub post_id : ℕ
  pub requested_at : ℕ
  pub request_key : List ℕ
  pub expected_revision : ℤ

pub record PostExactSchedule : Type 0 where
  pub post_id : ℕ
  pub requested_at : ℕ
  pub request_key : List ℕ
  pub expected_revision : ℤ

unfoldable pub try_new_schedule : ℕ → ℕ → List ℕ → ℤ → Result PublisherValidationError PostSchedule
try_new_schedule post_id requested_at request_key expected_revision = do
  key ← normalize_request_key request_key
  validate_expected_revision expected_revision
  ok (record {
    post_id = post_id;
    requested_at = requested_at;
    request_key = key;
    expected_revision = expected_revision;
  })

unfoldable pub try_new_exact :
    ℕ → ℕ → List ℕ → ℤ → Result PublisherValidationError PostExactSchedule
try_new_exact post_id requested_at request_key expected_revision = do
  key ← normalize_request_key request_key
  validate_expected_revision expected_revision
  ok (record {
    post_id = post_id;
    requested_at = requested_at;
    request_key = key;
    expected_revision = expected_revision;
  })

abbrev pub decision_as_str : PublicationDecision → String
decision_as_str post_now_anyway = "post_now_anyway"
decision_as_str queue_anyway = "queue_anyway"
decision_as_str keep_exact_time = "keep_exact_time"
decision_as_str cancel = "cancel"

-- `format!("exact:{}", …)` and `format!("publish_now:{}", …)`
abbrev pub exact_key : List ℕ → List ℕ
exact_key key = codes "exact:" ++ key

abbrev pub publish_now_key : List ℕ → List ℕ
publish_now_key key = codes "publish_now:" ++ key

module _ {Value Zone : Type 0} (env : Environment Value Zone) where
  unfoldable pub schedule_request_hash : PostSchedule → List ℕ
  schedule_request_hash schedule = env.sha256 (to_be_bytes 16 schedule.requested_at)

  unfoldable pub publish_now_request_hash : List ℕ → List ℕ
  publish_now_request_hash request_key =
      env.sha256 (env.as_bytes (codes "publish_now:v1:") ++ env.as_bytes request_key)

  unfoldable pub exact_schedule_request_hash : ℕ → List ℕ
  exact_schedule_request_hash requested_at =
      env.sha256 (env.as_bytes (codes "exact_schedule:v1:") ++ to_be_bytes 16 requested_at)

  unfoldable pub decision_request_hash : PublicationDecision → ℤ → List ℕ
  decision_request_hash decision expected_revision = env.sha256 (
      env.as_bytes (codes "publication_decision:v1:")
      ++ (env.as_bytes (codes (decision_as_str decision)) ++ i64_to_be_bytes expected_revision))
