-- ===== src/Jobs/Kinds.antt =====
-- `JobType` and `JobStatus` with their names in the database.
pub mod Names
use sooqa.Prelude.{String, Result, ok, err, if◌then◌else◌}
use sooqa.Prelude.Strings.{str_eq}

pub data JobType : Type 0 where
  inspect_source download_source probe_asset normalize_asset compute_fingerprint : JobType
  finalize_ingest materialize_publication upload_storage_asset sync_storage_caption : JobType
  publish_post cleanup_workspace : JobType

pub data JobStatus : Type 0 where
  queued running succeeded failed cancelled : JobStatus

unfoldable pub job_type_as_str : JobType → String
job_type_as_str inspect_source = "inspect_source"
job_type_as_str download_source = "download_source"
job_type_as_str probe_asset = "probe_asset"
job_type_as_str normalize_asset = "normalize_asset"
job_type_as_str compute_fingerprint = "compute_fingerprint"
job_type_as_str finalize_ingest = "finalize_ingest"
job_type_as_str materialize_publication = "materialize_publication"
job_type_as_str upload_storage_asset = "upload_storage_asset"
job_type_as_str sync_storage_caption = "sync_storage_caption"
job_type_as_str publish_post = "publish_post"
job_type_as_str cleanup_workspace = "cleanup_workspace"

-- The `match` on the text, arm by arm.
unfoldable pub job_type_try_from : String → Result String JobType
job_type_try_from value =
    if str_eq value "inspect_source"
    then ok inspect_source
    else if str_eq value "download_source"
    then ok download_source
    else if str_eq value "probe_asset"
    then ok probe_asset
    else if str_eq value "normalize_asset"
    then ok normalize_asset
    else if str_eq value "compute_fingerprint"
    then ok compute_fingerprint
    else if str_eq value "finalize_ingest"
    then ok finalize_ingest
    else if str_eq value "materialize_publication"
    then ok materialize_publication
    else if str_eq value "upload_storage_asset"
    then ok upload_storage_asset
    else if str_eq value "sync_storage_caption"
    then ok sync_storage_caption
    else if str_eq value "publish_post"
    then ok publish_post
    else if str_eq value "cleanup_workspace"
    then ok cleanup_workspace
    else err value

unfoldable pub job_status_as_str : JobStatus → String
job_status_as_str queued = "queued"
job_status_as_str running = "running"
job_status_as_str succeeded = "succeeded"
job_status_as_str failed = "failed"
job_status_as_str cancelled = "cancelled"

unfoldable pub job_status_try_from : String → Result String JobStatus
job_status_try_from value =
    if str_eq value "queued"
    then ok queued
    else if str_eq value "running"
    then ok running
    else if str_eq value "succeeded"
    then ok succeeded
    else if str_eq value "failed"
    then ok failed
    else if str_eq value "cancelled"
    then ok cancelled
    else err value
