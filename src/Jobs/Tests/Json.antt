-- ===== src/Jobs/Tests/Json.antt =====
-- A JSON of the payloads, for the runs.
use sooqa.Prelude.{ℕ, String, Result, ok, err, refl}
use sooqa.Jobs.Commands.{
  Serde, InspectSourcePayload, DownloadSourcePayload, IngestJobPayload,
  MaterializePublicationPayload, MediaJobPayload, PublishPostPayload, CleanupWorkspacePayload,
}
use sooqa.Jobs.Commands.RoundTrip.{IsLawful}

pub data Value : Type 0 where
  inspect_value : InspectSourcePayload → Value
  download_value : DownloadSourcePayload ℕ → Value
  ingest_value : IngestJobPayload → Value
  materialize_value : MaterializePublicationPayload → Value
  media_value : MediaJobPayload → Value
  publish_value : PublishPostPayload → Value
  cleanup_value : CleanupWorkspacePayload → Value

unfoldable pub read_inspect : Value → Result String InspectSourcePayload
read_inspect (inspect_value p) = ok p
read_inspect _ = err "missing field `ingest_id`"

unfoldable pub read_download : Value → Result String (DownloadSourcePayload ℕ)
read_download (download_value p) = ok p
read_download _ = err "missing field `inspection`"

unfoldable pub read_ingest : Value → Result String IngestJobPayload
read_ingest (ingest_value p) = ok p
read_ingest _ = err "missing field `ingest_id`"

unfoldable pub read_materialize : Value → Result String MaterializePublicationPayload
read_materialize (materialize_value p) = ok p
read_materialize _ = err "missing field `ingest_id`"

unfoldable pub read_media : Value → Result String MediaJobPayload
read_media (media_value p) = ok p
read_media _ = err "missing field `media_id`"

unfoldable pub read_publish : Value → Result String PublishPostPayload
read_publish (publish_value p) = ok p
read_publish _ = err "missing field `post_id`"

unfoldable pub read_cleanup : Value → Result String CleanupWorkspacePayload
read_cleanup (cleanup_value p) = ok p
read_cleanup _ = err "missing field `workspace_id`"

abbrev pub json : Serde Value ℕ
json = record {
  inspect_codec = record { to_value = inspect_value; from_value = read_inspect };
  download_codec = record { to_value = download_value; from_value = read_download };
  ingest_codec = record { to_value = ingest_value; from_value = read_ingest };
  materialize_codec = record { to_value = materialize_value; from_value = read_materialize };
  media_codec = record { to_value = media_value; from_value = read_media };
  publish_codec = record { to_value = publish_value; from_value = read_publish };
  cleanup_codec = record { to_value = cleanup_value; from_value = read_cleanup };
}

pub json-IsLawful : IsLawful json
unfolding read_inspect read_download read_ingest read_materialize read_media read_publish
    read_cleanup
json-IsLawful = record {
  inspect_read = λ p. refl;
  download_read = λ p. refl;
  ingest_read = λ p. refl;
  materialize_read = λ p. refl;
  media_read = λ p. refl;
  publish_read = λ p. refl;
  cleanup_read = λ p. refl;
}
