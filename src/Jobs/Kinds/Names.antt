-- ===== src/Jobs/Kinds/Names.antt =====
-- The names of job types and states are read back, and nothing else is.
use sooqa.Prelude.{String, ok, ◌≡◌, ◌↔◌, refl, ap, ◌∙◌}
use sooqa.Prelude.Strings.{read_arm}
use sooqa.Jobs.Kinds.{
  JobType, JobStatus, job_type_as_str, job_type_try_from, job_status_as_str, job_status_try_from,
  queued, running, succeeded, failed, cancelled, inspect_source, download_source, probe_asset,
  normalize_asset, compute_fingerprint, finalize_ingest, materialize_publication,
  upload_storage_asset, sync_storage_caption, publish_post, cleanup_workspace,
}

job_status_read : (s : JobStatus) → job_status_try_from (job_status_as_str s) ≡ ok s
unfolding job_status_try_from job_status_as_str
job_status_read queued = refl
job_status_read running = refl
job_status_read succeeded = refl
job_status_read failed = refl
job_status_read cancelled = refl

job_status_only :
    (value : String) (s : JobStatus)
    → job_status_try_from value ≡ ok s
    → value ≡ job_status_as_str s
unfolding job_status_try_from job_status_as_str
job_status_only value s = read_arm job_status_as_str value _ queued _ s refl (
    read_arm job_status_as_str value _ running _ s refl (
      read_arm job_status_as_str value _ succeeded _ s refl (
        read_arm job_status_as_str value _ failed _ s refl
          (read_arm job_status_as_str value _ cancelled _ s refl λ h. absurd (cc h)))))

pub job_status_try_from_iff :
    (value : String) (s : JobStatus)
    → (job_status_try_from value ≡ ok s) ↔ (value ≡ job_status_as_str s)
job_status_try_from_iff value s =
    (job_status_only value s, λ e. ap job_status_try_from e ∙ job_status_read s)

job_type_read : (t : JobType) → job_type_try_from (job_type_as_str t) ≡ ok t
unfolding job_type_try_from job_type_as_str
job_type_read inspect_source = refl
job_type_read download_source = refl
job_type_read probe_asset = refl
job_type_read normalize_asset = refl
job_type_read compute_fingerprint = refl
job_type_read finalize_ingest = refl
job_type_read materialize_publication = refl
job_type_read upload_storage_asset = refl
job_type_read sync_storage_caption = refl
job_type_read publish_post = refl
job_type_read cleanup_workspace = refl

job_type_only :
    (value : String) (t : JobType) → job_type_try_from value ≡ ok t → value ≡ job_type_as_str t
unfolding job_type_try_from job_type_as_str
job_type_only value t = read_arm job_type_as_str value _ inspect_source _ t refl (
    read_arm job_type_as_str value _ download_source _ t refl (
      read_arm job_type_as_str value _ probe_asset _ t refl (
        read_arm job_type_as_str value _ normalize_asset _ t refl (
          read_arm job_type_as_str value _ compute_fingerprint _ t refl (
            read_arm job_type_as_str value _ finalize_ingest _ t refl (
              read_arm job_type_as_str value _ materialize_publication _ t refl (
                read_arm job_type_as_str value _ upload_storage_asset _ t refl (
                  read_arm job_type_as_str value _ sync_storage_caption _ t refl (
                    read_arm job_type_as_str value _ publish_post _ t refl (
                      read_arm job_type_as_str value _ cleanup_workspace _ t refl
                        (λ h. absurd (cc h))))))))))))

-- A text is read as a job type exactly when it is the name of that type.
pub job_type_try_from_iff :
    (value : String) (t : JobType) → (job_type_try_from value ≡ ok t) ↔ (value ≡ job_type_as_str t)
job_type_try_from_iff value t =
    (job_type_only value t, λ e. ap job_type_try_from e ∙ job_type_read t)
