-- ===== src/Jobs/Tests.antt =====
-- Runs of the queue, and its theorems at concrete inputs. A payload is its own JSON value.
pub mod Json
use sooqa.Jobs.Tests.Json.{json, json-IsLawful, Value, read_ingest}
use sooqa.Prelude.{
  ℕ, ◌≡◌, ◌≢◌, ◌⊎◌, refl, arith, String, false, List, [], ◌∷◌, none, some, Result, ok, err, All,
  true,
}
use sooqa.Prelude.Int.{pos}
use sooqa.Jobs.Kinds
use sooqa.Jobs.Kinds.Names.{job_type_try_from_iff}
use sooqa.Prelude.{◌↔◌}
use sooqa.Jobs.Kinds.{JobType, job_type_as_str, job_type_try_from}
use sooqa.Jobs.Commands.{
  JobCommand, Serde, new, InspectSourcePayload, DownloadSourcePayload, IngestJobPayload,
  MaterializePublicationPayload, MediaJobPayload, PublishPostPayload, CleanupWorkspacePayload,
  probe_asset, cleanup_workspace, from_payload, payload_json, job_type,
}
use sooqa.Jobs.Commands.RoundTrip.{IsLawful, from_payload-payload_json}
use sooqa.Jobs.Rows.{JobRow, JobLease, lease_lost, retry}
use sooqa.Jobs.Table.{Table, claim_rows, candidate, claimable, start, update_where}
use sooqa.Jobs.Table.Rewrites.{Distinct}
use sooqa.Jobs.Table.Order.{IsFirst}
use sooqa.Jobs.Queue.{enqueue, claim_next, heartbeat_lease, complete_lease, lease_seconds}
use sooqa.Jobs.Queue.Invariant.{IsValid}
use sooqa.Jobs.Queue.Invariant.Steps.{Reachable, empty, next, enqueued, claimed, Reachable-IsValid}
use sooqa.Jobs.Queue.Claim.{claim_rows-Takes, IsClaimable, Takes}
use sooqa.Jobs.Queue.Lost.{lost_lease, IsLost, RequeuedAs}
use sooqa.Jobs.Settlement.Fallback.{settle_cleanup}
use sooqa.Jobs.Rows.{Job}
use sooqa.Prelude.{map, inr}
use sooqa.Prelude.Tables.Swaps.{swapped}
use sooqa.Jobs.Settlement.{settle_queue_in_transaction}
use sooqa.Jobs.Kinds.{job_status_try_from}
use sooqa.Jobs.Commands.{decode_payload}
use sooqa.Jobs.Rows.{into_job, allows_expired_lease}
use sooqa.Jobs.Table.{succeed}
use sooqa.Jobs.Table.Rewrites.{Mem, here, there}
use sooqa.Jobs.Queue.{inserted}
use sooqa.Jobs.Queue.Completion.{complete_lease-twice}
use sooqa.Jobs.Settlement.{
  settled, queue_parameters, lockable, validate_locked_command, commands_have_same_owner,
}
use sooqa.Jobs.Settlement.Effect.{settle_queue-SettledAs, SettledAs, Holds, job_id_of}

abbrev probe : JobCommand ℕ
probe = probe_asset (record { ingest_id = 7 })

abbrev clean : JobCommand ℕ
clean = cleanup_workspace (record { ingest_id = 7; workspace_id = 3 })

abbrev one : Table Value
one = (enqueue json 100 1 (new clean) []).1

abbrev two : Table Value
two = (enqueue json 110 2 (record (new probe) { priority = pos 4 }) one).1

abbrev both : List JobType
both = Kinds.probe_asset ∷ Kinds.cleanup_workspace ∷ []

abbrev started : Table Value
started = (claim_next json 120 55 "worker" 30 both two).1

abbrev lost : JobLease
lost = record { job_id = 2; attempt_number = 1; lease_owner = "worker"; lease_token = 54 }

job_type_try_from_iff_example :
    (job_type_try_from "publish_post" ≡ ok Kinds.publish_post)
    ↔ ("publish_post" ≡ job_type_as_str Kinds.publish_post)
job_type_try_from_iff_example = job_type_try_from_iff "publish_post" Kinds.publish_post

from_payload-payload_json_example :
    from_payload json (job_type clean) (payload_json json clean) ≡ ok clean
from_payload-payload_json_example = from_payload-payload_json json json-IsLawful clean

started-Reachable : Reachable json started
started-Reachable =
    next
      (next (next empty (enqueued 100 1 (new clean)))
        (enqueued 110 2 (record (new probe) { priority = pos 4 })))
      (claimed 120 55 "worker" 30 both)

Reachable-IsValid_example : IsValid started
Reachable-IsValid_example = Reachable-IsValid json started started-Reachable

two-Distinct : Distinct two
two-Distinct =
    (Reachable-IsValid json two (
      next (next empty (enqueued 100 1 (new clean)))
        (enqueued 110 2 (record (new probe) { priority = pos 4 })))).1

claim_rows-Takes_example :
    ((claim_rows 120 55 "worker" 30 both two ≡ (none, two))
      × ((b : JobRow Value) → Mem b two → ¬ IsClaimable 120 both b))
    ⊎ ((row : JobRow Value) × ((out : JobRow Value) × ((rows' : Table Value) × ((claim_rows 120 55
                  "worker" 30 both two
                ≡ (some out, rows'))
              × Takes 120 55 30 "worker" both two row out rows'))))
claim_rows-Takes_example = claim_rows-Takes 120 55 30 "worker" both two two-Distinct

started_tokens : (t : ℕ) → t ≢ 55 → All (λ (a : JobRow Value). a.lease_token ≢ some t) started
unfolding enqueue claim_next claim_rows candidate update_where lease_seconds job_type
    job_type_as_str
started_tokens t h = ((λ e. absurd (cc e)), ((λ e. h (cc e)), tt))

started-IsLost : IsLost lost started
started-IsLost = started_tokens 54 λ e. omega arith

abbrev cleaned : CleanupWorkspacePayload
cleaned = record { ingest_id = 7; workspace_id = 3 }

lost_lease_example :
    (heartbeat_lease json 130 lost 30 started ≡ (err lease_lost, started))
    × ((complete_lease json 130 lost started).1 ≡ started)
    × ((settle_cleanup json 130 130 lost cleaned (retry 200 "network" "timeout" false) started).1
        ≡ started)
    × (allows_expired_lease (retry 200 "network" "timeout" false) ≡ false
        → (settle_cleanup json 130 130 lost cleaned (retry 200 "network" "timeout" false) started).0
          ≡ err lease_lost)
    × ((job : Job ℕ)
        → (settle_cleanup json 130 130 lost cleaned (retry 200 "network" "timeout" false) started).0
          ≡ ok job
        → (row : JobRow Value) × (RequeuedAs lost (retry 200 "network" "timeout" false) started row
            × (into_job json row ≡ ok job)))
lost_lease_example =
    lost_lease json 130 130 30 lost cleaned (retry 200 "network" "timeout" false) started
      started-IsLost (omega arith)

abbrev holder : JobLease
holder = record { job_id = 2; attempt_number = 1; lease_owner = "worker"; lease_token = 55 }

abbrev held : JobRow Value
held = start 120 55 "worker" 30 (inserted json 110 2 (record (new probe) { priority = pos 4 }))

held-Mem : Mem held started
unfolding enqueue claim_next claim_rows candidate update_where lease_seconds job_type
    job_type_as_str payload_json
held-Mem = there here

started-Distinct : Distinct started
started-Distinct = (Reachable-IsValid json started started-Reachable).1

complete_lease-twice_example :
    ((complete_lease json 130 holder started).0 ≡ into_job json (succeed 130 held))
    × (complete_lease json 140 holder (complete_lease json 130 holder started).1
        ≡ complete_lease json 130 holder started)
complete_lease-twice_example =
    complete_lease-twice json 130 140 holder held started started-Distinct held-Mem refl refl

held_command : validate_locked_command json held probe ≡ ok probe
unfolding validate_locked_command into_job job_type_try_from job_status_try_from from_payload
    payload_json decode_payload job_type job_type_as_str commands_have_same_owner read_ingest
held_command = refl

held-Holds : Holds 130 holder (retry 200 "network" "timeout" false) held
held-Holds = record {
  same_job = refl;
  runs = refl;
  attempt = refl;
  owner = refl;
  token = refl;
  lasts = inr (150, (refl, omega arith));
}

settle_queue-SettledAs_example :
    (out : JobRow Value) × (SettledAs 130 (retry 200 "network" "timeout" false) held out
      × (settle_queue_in_transaction json 130 130 holder probe
            (retry 200 "network" "timeout" false)
            started
          ≡ (ok out, map (swapped job_id_of out) started)))
settle_queue-SettledAs_example =
    settle_queue-SettledAs json 130 130 holder probe probe (retry 200 "network" "timeout" false)
      held started started-Distinct held-Mem held-Holds held_command
