-- ===== src/Jobs/Commands.antt =====
-- Queue commands with their payloads. `Inspection` stands for the inspection that a download carries:
-- nothing here looks into it. A `Uuid` is a number. `Value` is serde_json's, with its codecs.
pub mod RoundTrip
use sooqa.Prelude.{ℕ, String, Bool, Result, ok, err, ◌>>=◌, Option, none, some, ◌≡◌}
use sooqa.Prelude.Int.{ℤ, pos}
use sooqa.Jobs.Kinds.{JobType}
use sooqa.Jobs.Kinds

pub record InspectSourcePayload : Type 0 where
  pub ingest_id : ℕ

pub record DownloadSourcePayload (Inspection : Type 0) : Type 0 where
  pub ingest_id : ℕ
  pub inspection : Inspection

pub record IngestJobPayload : Type 0 where
  pub ingest_id : ℕ

pub record MaterializePublicationPayload : Type 0 where
  pub ingest_id : ℕ

pub record MediaJobPayload : Type 0 where
  pub media_id : ℕ
  pub generation : ℤ

pub record PublishPostPayload : Type 0 where
  pub post_id : ℕ
  pub expected_revision : ℤ

pub record CleanupWorkspacePayload : Type 0 where
  pub ingest_id : ℕ
  pub workspace_id : ℕ

pub data JobCommand (Inspection : Type 0) : Type 0 where
  inspect_source : InspectSourcePayload → JobCommand Inspection
  download_source : DownloadSourcePayload Inspection → JobCommand Inspection
  probe_asset : IngestJobPayload → JobCommand Inspection
  normalize_asset : IngestJobPayload → JobCommand Inspection
  compute_fingerprint : IngestJobPayload → JobCommand Inspection
  finalize_ingest : IngestJobPayload → JobCommand Inspection
  materialize_publication : MaterializePublicationPayload → JobCommand Inspection
  upload_storage_asset : MediaJobPayload → JobCommand Inspection
  sync_storage_caption : MediaJobPayload → JobCommand Inspection
  publish_post : PublishPostPayload → JobCommand Inspection
  cleanup_workspace : CleanupWorkspacePayload → JobCommand Inspection

unfoldable pub job_type : {Inspection : Type 0} → JobCommand Inspection → JobType
job_type (inspect_source payload) = Kinds.inspect_source
job_type (download_source payload) = Kinds.download_source
job_type (probe_asset payload) = Kinds.probe_asset
job_type (normalize_asset payload) = Kinds.normalize_asset
job_type (compute_fingerprint payload) = Kinds.compute_fingerprint
job_type (finalize_ingest payload) = Kinds.finalize_ingest
job_type (materialize_publication payload) = Kinds.materialize_publication
job_type (upload_storage_asset payload) = Kinds.upload_storage_asset
job_type (sync_storage_caption payload) = Kinds.sync_storage_caption
job_type (publish_post payload) = Kinds.publish_post
job_type (cleanup_workspace payload) = Kinds.cleanup_workspace

-- What serde derives for a payload: `to_value`, and `from_value` with the text of its error.
pub record Codec (Value Payload : Type 0) : Type 0 where
  pub to_value : Payload → Value
  pub from_value : Value → Result String Payload

pub record Serde (Value Inspection : Type 0) : Type 0 where
  pub inspect_codec : Codec Value InspectSourcePayload
  pub download_codec : Codec Value (DownloadSourcePayload Inspection)
  pub ingest_codec : Codec Value IngestJobPayload
  pub materialize_codec : Codec Value MaterializePublicationPayload
  pub media_codec : Codec Value MediaJobPayload
  pub publish_codec : Codec Value PublishPostPayload
  pub cleanup_codec : Codec Value CleanupWorkspacePayload

pub data JobPayloadError : Type 0 where
  invalid : JobType → String → JobPayloadError

-- `decode_payload`
unfoldable pub decode_payload :
    {Value Payload : Type 0}
    → Codec Value Payload
    → JobType
    → Value
    → Result JobPayloadError Payload
decode_payload codec kind payload = elim (codec.from_value payload) [
  | ok p ↦ ok p
  | err message ↦ err (invalid kind message)
]

-- The `decode!` macro: `decode_payload(…).map(variant)`.
abbrev pub decode_as :
    {Value Payload Inspection : Type 0}
    → Codec Value Payload
    → (Payload → JobCommand Inspection)
    → JobType
    → Value
    → Result JobPayloadError (JobCommand Inspection)
decode_as codec variant kind payload = decode_payload codec kind payload >>= λ p. ok (variant p)

module _ {Value Inspection : Type 0} (serde : Serde Value Inspection) where
  unfoldable pub from_payload : JobType → Value → Result JobPayloadError (JobCommand Inspection)
  from_payload Kinds.inspect_source payload =
      decode_as serde.inspect_codec inspect_source Kinds.inspect_source payload
  from_payload Kinds.download_source payload =
      decode_as serde.download_codec download_source Kinds.download_source payload
  from_payload Kinds.probe_asset payload =
      decode_as serde.ingest_codec probe_asset Kinds.probe_asset payload
  from_payload Kinds.normalize_asset payload =
      decode_as serde.ingest_codec normalize_asset Kinds.normalize_asset payload
  from_payload Kinds.compute_fingerprint payload =
      decode_as serde.ingest_codec compute_fingerprint Kinds.compute_fingerprint payload
  from_payload Kinds.finalize_ingest payload =
      decode_as serde.ingest_codec finalize_ingest Kinds.finalize_ingest payload
  from_payload Kinds.materialize_publication payload =
      decode_as serde.materialize_codec materialize_publication Kinds.materialize_publication
        payload
  from_payload Kinds.upload_storage_asset payload =
      decode_as serde.media_codec upload_storage_asset Kinds.upload_storage_asset payload
  from_payload Kinds.sync_storage_caption payload =
      decode_as serde.media_codec sync_storage_caption Kinds.sync_storage_caption payload
  from_payload Kinds.publish_post payload =
      decode_as serde.publish_codec publish_post Kinds.publish_post payload
  from_payload Kinds.cleanup_workspace payload =
      decode_as serde.cleanup_codec cleanup_workspace Kinds.cleanup_workspace payload

  unfoldable pub payload_json : JobCommand Inspection → Value
  payload_json (inspect_source payload) = serde.inspect_codec.to_value payload
  payload_json (download_source payload) = serde.download_codec.to_value payload
  payload_json (probe_asset payload) = serde.ingest_codec.to_value payload
  payload_json (normalize_asset payload) = serde.ingest_codec.to_value payload
  payload_json (compute_fingerprint payload) = serde.ingest_codec.to_value payload
  payload_json (finalize_ingest payload) = serde.ingest_codec.to_value payload
  payload_json (materialize_publication payload) = serde.materialize_codec.to_value payload
  payload_json (upload_storage_asset payload) = serde.media_codec.to_value payload
  payload_json (sync_storage_caption payload) = serde.media_codec.to_value payload
  payload_json (publish_post payload) = serde.publish_codec.to_value payload
  payload_json (cleanup_workspace payload) = serde.cleanup_codec.to_value payload

pub record NewJob (Inspection : Type 0) : Type 0 where
  pub command : JobCommand Inspection
  pub priority : ℤ
  pub run_at : Option ℕ
  pub max_attempts : ℤ
  pub dedupe_key : Option String

abbrev pub new : {Inspection : Type 0} → JobCommand Inspection → NewJob Inspection
new command = record {
  command = command;
  priority = pos 0;
  run_at = none;
  max_attempts = pos 5;
  dedupe_key = none;
}

-- `NewJob::sync_storage_caption`, the only constructor that sets more than its command.
abbrev pub new_sync_storage_caption : {Inspection : Type 0} → ℕ → ℤ → NewJob Inspection
new_sync_storage_caption media_id generation =
    record (new (sync_storage_caption (record { media_id = media_id; generation = generation }))) {
      max_attempts = pos 3;
    }
