-- ===== src/Inbox/Status/Names.antt =====
-- The names of the statuses are read back, and nothing else is.
use sooqa.Prelude.{String, ok, ◌≡◌, ◌↔◌, refl, ap, ◌∙◌}
use sooqa.Prelude.Strings.{read_arm}
use sooqa.Inbox.Status.{
  IngestStatus, as_str, try_from, received, queued, downloading, probing, exact_dedup_check,
  normalizing, fingerprinting, duplicate_pending, storing, completed, failed_retryable,
  failed_terminal, cancelled,
}

status_read : (s : IngestStatus) → try_from (as_str s) ≡ ok s
unfolding try_from as_str
status_read received = refl
status_read queued = refl
status_read downloading = refl
status_read probing = refl
status_read exact_dedup_check = refl
status_read normalizing = refl
status_read fingerprinting = refl
status_read duplicate_pending = refl
status_read storing = refl
status_read completed = refl
status_read failed_retryable = refl
status_read failed_terminal = refl
status_read cancelled = refl

status_only : (value : String) (s : IngestStatus) → try_from value ≡ ok s → value ≡ as_str s
unfolding try_from as_str
status_only value s = read_arm as_str value _ received _ s refl (
    read_arm as_str value _ queued _ s refl (
      read_arm as_str value _ downloading _ s refl (
        read_arm as_str value _ probing _ s refl (
          read_arm as_str value _ exact_dedup_check _ s refl (
            read_arm as_str value _ normalizing _ s refl (
              read_arm as_str value _ fingerprinting _ s refl (
                read_arm as_str value _ duplicate_pending _ s refl (
                  read_arm as_str value _ storing _ s refl (
                    read_arm as_str value _ completed _ s refl (
                      read_arm as_str value _ failed_retryable _ s refl (
                        read_arm as_str value _ failed_terminal _ s refl (
                          read_arm as_str value _ cancelled _ s refl
                            (λ h. absurd (cc h))))))))))))))

-- A text is read as an ingest status exactly when it is the name of that status.
pub try_from_iff :
    (value : String) (s : IngestStatus) → (try_from value ≡ ok s) ↔ (value ≡ as_str s)
try_from_iff value s = (status_only value s, λ e. ap try_from e ∙ status_read s)
