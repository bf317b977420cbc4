-- ===== src/Inbox/Status.antt =====
-- `IngestStatus` with its names, and the guard of `Ingest::transition_to`.
pub mod Moves
pub mod Pipeline
pub mod Names
use sooqa.Prelude.{
  String, Bool, true, false, ◌||◌, ◌&&◌, ◌==◌, ℕ, Result, ok, err, fail_if, ◌>>◌, not,
  if◌then◌else◌,
}
use sooqa.Prelude.Strings.{str_eq}

pub data IngestStatus : Type 0 where
  received queued downloading probing exact_dedup_check normalizing fingerprinting : IngestStatus
  duplicate_pending storing completed failed_retryable failed_terminal cancelled : IngestStatus

unfoldable pub as_str : IngestStatus → String
as_str received = "received"
as_str queued = "queued"
as_str downloading = "downloading"
as_str probing = "probing"
as_str exact_dedup_check = "exact_dedup_check"
as_str normalizing = "normalizing"
as_str fingerprinting = "fingerprinting"
as_str duplicate_pending = "duplicate_pending"
as_str storing = "storing"
as_str completed = "completed"
as_str failed_retryable = "failed_retryable"
as_str failed_terminal = "failed_terminal"
as_str cancelled = "cancelled"

unfoldable pub try_from : String → Result String IngestStatus
try_from value =
    if str_eq value "received"
    then ok received
    else if str_eq value "queued"
    then ok queued
    else if str_eq value "downloading"
    then ok downloading
    else if str_eq value "probing"
    then ok probing
    else if str_eq value "exact_dedup_check"
    then ok exact_dedup_check
    else if str_eq value "normalizing"
    then ok normalizing
    else if str_eq value "fingerprinting"
    then ok fingerprinting
    else if str_eq value "duplicate_pending"
    then ok duplicate_pending
    else if str_eq value "storing"
    then ok storing
    else if str_eq value "completed"
    then ok completed
    else if str_eq value "failed_retryable"
    then ok failed_retryable
    else if str_eq value "failed_terminal"
    then ok failed_terminal
    else if str_eq value "cancelled"
    then ok cancelled
    else err value

unfoldable pub is_terminal : IngestStatus → Bool
is_terminal completed = true
is_terminal failed_terminal = true
is_terminal cancelled = true
is_terminal _ = false

-- The derived `==`, on the discriminants.
abbrev pub discriminant : IngestStatus → ℕ
discriminant received = 0
discriminant queued = 1
discriminant downloading = 2
discriminant probing = 3
discriminant exact_dedup_check = 4
discriminant normalizing = 5
discriminant fingerprinting = 6
discriminant duplicate_pending = 7
discriminant storing = 8
discriminant completed = 9
discriminant failed_retryable = 10
discriminant failed_terminal = 11
discriminant cancelled = 12

abbrev pub is_failure_or_cancel : IngestStatus → Bool
is_failure_or_cancel failed_retryable = true
is_failure_or_cancel failed_terminal = true
is_failure_or_cancel cancelled = true
is_failure_or_cancel _ = false

-- The pairs of the last `matches!`.
abbrev pub is_listed : IngestStatus → IngestStatus → Bool
is_listed received queued = true
is_listed queued downloading = true
is_listed downloading probing = true
is_listed probing normalizing = true
is_listed probing exact_dedup_check = true
is_listed exact_dedup_check normalizing = true
is_listed normalizing fingerprinting = true
is_listed normalizing storing = true
is_listed fingerprinting storing = true
is_listed fingerprinting duplicate_pending = true
is_listed fingerprinting completed = true
is_listed duplicate_pending queued = true
is_listed duplicate_pending storing = true
is_listed failed_retryable storing = true
is_listed failed_retryable fingerprinting = true
is_listed storing fingerprinting = true
is_listed storing completed = true
is_listed _ _ = false

abbrev pub is_requeue : IngestStatus → IngestStatus → Bool
is_requeue failed_retryable queued = true
is_requeue _ _ = false

unfoldable pub can_transition_to : IngestStatus → IngestStatus → Bool
can_transition_to self target =
    if discriminant self == discriminant target
    then true
    else if is_terminal self
    then false
    else if is_failure_or_cancel target
    then true
    else if is_requeue self target
    then true
    else is_listed self target

pub record IngestStateError : Type 0 where
  pub from : IngestStatus
  pub to : IngestStatus

-- The status after the call, which is all of an ingest that it writes.
unfoldable pub transition_to :
    IngestStatus → IngestStatus → Result IngestStateError (Unit {0}) × IngestStatus
transition_to status target =
    if not (can_transition_to status target)
    then (err (record { from = status; to = target }), status)
    else (ok tt, target)
