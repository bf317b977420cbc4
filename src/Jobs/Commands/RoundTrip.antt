-- ===== src/Jobs/Commands/RoundTrip.antt =====
-- A command is read back from its kind and its payload.
use sooqa.Prelude.{ok, ◌≡◌}
use sooqa.Jobs.Kinds.{JobType}
use sooqa.Jobs.Commands.{
  JobCommand, Codec, Serde, decode_payload, decode_as, from_payload, payload_json,
  InspectSourcePayload, DownloadSourcePayload, IngestJobPayload, MaterializePublicationPayload,
  MediaJobPayload, PublishPostPayload, CleanupWorkspacePayload, job_type, inspect_source,
  download_source, probe_asset, normalize_asset, compute_fingerprint, finalize_ingest,
  materialize_publication, upload_storage_asset, sync_storage_caption, publish_post,
  cleanup_workspace,
}

-- serde reads back what it wrote.
pub record IsLawful {Value Inspection : Type 0} (serde : Serde Value Inspection) : Type 0 where
  pub inspect_read :
      (p : InspectSourcePayload)
      → serde.inspect_codec.from_value (serde.inspect_codec.to_value p) ≡ ok p
  pub download_read :
      (p : DownloadSourcePayload Inspection)
      → serde.download_codec.from_value (serde.download_codec.to_value p) ≡ ok p
  pub ingest_read :
      (p : IngestJobPayload) → serde.ingest_codec.from_value (serde.ingest_codec.to_value p) ≡ ok p
  pub materialize_read :
      (p : MaterializePublicationPayload)
      → serde.materialize_codec.from_value (serde.materialize_codec.to_value p) ≡ ok p
  pub media_read :
      (p : MediaJobPayload) → serde.media_codec.from_value (serde.media_codec.to_value p) ≡ ok p
  pub publish_read :
      (p : PublishPostPayload)
      → serde.publish_codec.from_value (serde.publish_codec.to_value p) ≡ ok p
  pub cleanup_read :
      (p : CleanupWorkspacePayload)
      → serde.cleanup_codec.from_value (serde.cleanup_codec.to_value p) ≡ ok p

module _ {Value Inspection : Type 0} (serde : Serde Value Inspection)
    (lawful : IsLawful serde) where
  decode_as_read :
      {Payload : Type 0} (codec : Codec Value Payload) (variant : Payload → JobCommand Inspection)
      (kind : JobType) (p : Payload)
      → codec.from_value (codec.to_value p) ≡ ok p
      → decode_as codec variant kind (codec.to_value p) ≡ ok (variant p)
  unfolding decode_payload
  decode_as_read codec variant kind p h = rw (h, decode_payload)

  -- If serde reads back each payload that it writes, every command is read back from its job type and
  -- its JSON payload.
  pub from_payload-payload_json :
      (c : JobCommand Inspection) → from_payload serde (job_type c) (payload_json serde c) ≡ ok c
  unfolding from_payload payload_json job_type
  from_payload-payload_json (inspect_source p) =
      decode_as_read serde.inspect_codec inspect_source _ p (lawful.inspect_read p)
  from_payload-payload_json (download_source p) =
      decode_as_read serde.download_codec download_source _ p (lawful.download_read p)
  from_payload-payload_json (probe_asset p) =
      decode_as_read serde.ingest_codec probe_asset _ p (lawful.ingest_read p)
  from_payload-payload_json (normalize_asset p) =
      decode_as_read serde.ingest_codec normalize_asset _ p (lawful.ingest_read p)
  from_payload-payload_json (compute_fingerprint p) =
      decode_as_read serde.ingest_codec compute_fingerprint _ p (lawful.ingest_read p)
  from_payload-payload_json (finalize_ingest p) =
      decode_as_read serde.ingest_codec finalize_ingest _ p (lawful.ingest_read p)
  from_payload-payload_json (materialize_publication p) =
      decode_as_read serde.materialize_codec materialize_publication _ p (lawful.materialize_read p)
  from_payload-payload_json (upload_storage_asset p) =
      decode_as_read serde.media_codec upload_storage_asset _ p (lawful.media_read p)
  from_payload-payload_json (sync_storage_caption p) =
      decode_as_read serde.media_codec sync_storage_caption _ p (lawful.media_read p)
  from_payload-payload_json (publish_post p) =
      decode_as_read serde.publish_codec publish_post _ p (lawful.publish_read p)
  from_payload-payload_json (cleanup_workspace p) =
      decode_as_read serde.cleanup_codec cleanup_workspace _ p (lawful.cleanup_read p)
