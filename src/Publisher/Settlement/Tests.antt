-- ===== src/Publisher/Settlement/Tests.antt =====
-- The last attempt of a publication fails while the post is being sent, and the lease of another expires.
use sooqa.Prelude.{◌≡◌, refl, ◌/◌, if◌then◌else◌, true, false, [], ◌∷◌, Option, none, some, ok, err}
use sooqa.Prelude.Strings.{str_eq}
use sooqa.Prelude.Int.{pos}
use sooqa.Prelude.Tables.{update_where, select_where}
use sooqa.Prelude.Tables.Rewrites.{Mem}
use sooqa.Jobs.Kinds.{job_type_try_from, job_status_try_from}
use sooqa.Jobs.Commands.{publish_post, PublishPostPayload, from_payload, decode_payload}
use sooqa.Jobs.Tests.Json.{Value, json, publish_value, read_publish}
use sooqa.Jobs.Rows.{JobRow, JobLease, JobSettlement, fail, allows_expired_lease, into_job}
use sooqa.Jobs.Settlement.{
  settle_queue_in_transaction, recover_queue_only_in_transaction, lock_running_job,
  lock_expired_job, update_locked_job, validate_locked_command, queue_parameters,
  commands_have_same_owner,
}
use sooqa.Publisher.Channel.{text_eq, utc}
use sooqa.Publisher.Intent.{is_some}
use sooqa.Publisher.Posts.{PostRow}
use sooqa.Publisher.Slots.{Chrono, nanos_per_day}
use sooqa.Publisher.Store.{Environment, Moment, Store, update_posts}
use sooqa.Publisher.Settlement.{
  settle_publish_row, recover_publish_row, recover_expired, settle_both, settle_post,
  settle_terminal_publication_post, lock_publication_post,
}
use sooqa.Publisher.Settlement.Refinement.{settle_publish-refines, settle_publish-quiet}
use sooqa.Publisher.Settlement.Recovery.{recover_publish-refines}

abbrev chrono : Chrono (Unit {0})
chrono = record {
  parse_zone = λ name. if text_eq name utc then some tt else none;
  is_timestamp = λ t. true;
  has_nanos = λ t. true;
  local_date = λ zone t. t / nanos_per_day;
  from_local_datetime = λ zone t. t ∷ [];
}

abbrev env : Environment Value (Unit {0})
env = record {
  chrono = chrono;
  sha256 = λ bytes. bytes;
  as_bytes = λ text. text;
  uuid_text = λ id. "7";
  publish_payload =
      λ id revision. publish_value (record { post_id = id; expected_revision = pos revision });
  payload_post_id = λ payload. some "7";
  evidence_from_value = λ value. err "evidence";
}

abbrev moment : Moment
moment = record { now = 1000; clock = 1001; local = 1002; fresh = 99 }

abbrev payload : PublishPostPayload
payload = record { post_id = 7; expected_revision = pos 4 }

abbrev sent : PostRow Value
sent = record {
  id = 7;
  request_key = none;
  request_hash = none;
  origin_ingest_id = none;
  requested_action = "queue";
  requested_publish_at = none;
  repeat_evidence = none;
  decision_request_key = none;
  decision_request_hash = none;
  schedule_request_key = none;
  schedule_request_hash = none;
  media_id = 5;
  channel_id = 3;
  state = "sending";
  caption = none;
  parse_mode = none;
  disable_notification = false;
  scheduled_at = 900;
  cadence_slot_at = none;
  send_generation = 1;
  send_token = some 55;
  send_started_at = some 950;
  telegram_message_id = none;
  published_at = none;
  error_class = none;
  error_message = none;
  created_at = 0;
  updated_at = 950;
  revision = 5;
}

abbrev job : JobRow Value
job = record {
  id = 1;
  kind = "publish_post";
  payload = publish_value payload;
  state = "running";
  priority = pos 0;
  run_at = 900;
  attempt_count = 3;
  max_attempts = 3;
  lease_token = some 9;
  lease_owner = some "w";
  lease_expires_at = some 2000;
  last_heartbeat_at = none;
  error_class = none;
  error_message = none;
  dedupe_key = none;
  created_at = 0;
  updated_at = 940;
  completed_at = none;
}

abbrev tables : Store Value
tables = record { posts = sent ∷ []; jobs = job ∷ []; channels = []; media = [] }

abbrev lease : JobLease
lease = record { job_id = 1; attempt_number = 3; lease_owner = "w"; lease_token = 9 }

abbrev failure : JobSettlement
failure = fail "telegram" "refused"

abbrev failed_job : JobRow Value
failed_job = record job {
  state = "failed";
  lease_token = none;
  lease_owner = none;
  lease_expires_at = none;
  error_class = some "telegram";
  error_message = some "refused";
  completed_at = some 1000;
  updated_at = 1000;
}

abbrev unknown_post : PostRow Value
unknown_post = record sent {
  state = "unknown";
  send_token = none;
  send_started_at = none;
  error_class = some "telegram";
  error_message = some "refused";
  revision = 6;
  updated_at = 1000;
}

abbrev failed_tables : Store Value
failed_tables = record tables { posts = unknown_post ∷ []; jobs = failed_job ∷ [] }

settling :
    settle_publish_row env moment json lease (publish_post payload) failure tables
    ≡ ok (failed_job, failed_tables)
unfolding settle_publish_row lock_running_job select_where allows_expired_lease
    validate_locked_command into_job job_type_try_from from_payload decode_payload read_publish
    job_status_try_from commands_have_same_owner queue_parameters settle_both settle_post
    lock_publication_post settle_terminal_publication_post update_posts update_where
    update_locked_job
settling = refl

settle_publish-refines_example :
    settle_queue_in_transaction json 1000 1001 lease (publish_post payload) failure (job ∷ [])
    ≡ (ok failed_job, failed_job ∷ [])
settle_publish-refines_example =
    settle_publish-refines env moment json lease (publish_post payload) failure tables failed_job
      failed_tables settling

settle_publish-quiet_example :
    (str_eq "failed" "failed" ≡ true
      → (a : PostRow Value) → Mem a (unknown_post ∷ [])
      → a.id ≡ 7
      → str_eq a.state "sending" ≡ false)
    × (str_eq "failed" "failed" ≡ false → (unknown_post ∷ []) ≡ (sent ∷ []))
settle_publish-quiet_example =
    settle_publish-quiet env moment json lease payload failure tables failed_job failed_tables
      (tt, tt) settling

-- The lease of the last attempt has expired.
abbrev late : JobRow Value
late = record job { lease_expires_at = some 1000 }

abbrev late_tables : Store Value
late_tables = record tables { jobs = late ∷ [] }

abbrev lost_job : JobRow Value
lost_job = record failed_job {
  run_at = 1002;
  error_class = some "lease_expired";
  error_message = some "job lease expired";
}

abbrev lost_post : PostRow Value
lost_post = record unknown_post {
  error_class = some "publication_interrupted";
  error_message = some "publication job lease expired after the final attempt";
}

abbrev lost_tables : Store Value
lost_tables = record tables { posts = lost_post ∷ []; jobs = lost_job ∷ [] }

recovering :
    recover_publish_row env moment json 1 (publish_post payload) late_tables
    ≡ ok (true, lost_tables)
unfolding recover_publish_row lock_expired_job recover_expired select_where validate_locked_command
    into_job job_type_try_from from_payload decode_payload read_publish job_status_try_from
    commands_have_same_owner settle_both settle_post lock_publication_post
    settle_terminal_publication_post update_posts update_where update_locked_job
recovering = refl

recover_publish-refines_example :
    (o : Option (JobRow Value)) × ((recover_queue_only_in_transaction json 1000 1001 1002 1
          (publish_post payload)
          (late ∷ [])
        ≡ (ok o, lost_job ∷ []))
      × (is_some o ≡ true))
recover_publish-refines_example =
    recover_publish-refines env moment json 1 (publish_post payload) late_tables true lost_tables
      recovering
