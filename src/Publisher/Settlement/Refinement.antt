-- ===== src/Publisher/Settlement/Refinement.antt =====
-- The settlement of a publication's job is the queue's settlement of that job, together with that of its post.
use sooqa.Prelude.{
  ℕ, ◌≡◌, refl, sym, subst, ap, ◌∙◌, Bool, true, false, not, leb, ◌&&◌, if◌then◌else◌, ==_iff, some,
  Option-cases, ok, ok_or, >>=-elim, ok_or-eq-ok, Bool-cases, inl, inr,
}
use sooqa.Prelude.Strings.{str_eq}
use sooqa.Prelude.Tables.{update_where}
use sooqa.Prelude.Tables.Rewrites.{Mem, Distinct, update_where-some}
use sooqa.Jobs.Commands.{JobCommand, Serde, PublishPostPayload, publish_post}
use sooqa.Jobs.Rows.{
  JobRow, JobLease, JobSettlement, lease_lost, into_job, allows_expired_lease, retry, defer, fail,
}
use sooqa.Jobs.Table.{Table}
use sooqa.Jobs.Queue.{Outcome}
use sooqa.Jobs.Settlement.{
  running_row, settled, QueueUpdate, queue_parameters, lock_running_job, locked_command,
  update_locked_job, validate_locked_command, settle_queue_in_transaction, commands_have_same_owner,
}
use sooqa.Publisher.Posts.{PostRow}
use sooqa.Publisher.Store.{Environment, Moment, Store}
use sooqa.Publisher.Store.Swaps.{post_id_of}
use sooqa.Publisher.Settlement.{
  publication_of, lock_publication_post, settle_publish_row, settle_both,
}
use sooqa.Publisher.Settlement.Joint.{Joint, settle_both-Joint, publication_of-some, ok_arg}

requeue-terminal : (t : Bool) → str_eq (if t then "failed" else "queued") "failed" ≡ t
requeue-terminal true = refl
requeue-terminal false = refl

module _ {Value Zone Inspection : Type 0} (env : Environment Value Zone) (moment : Moment)
    (serde : Serde Value Inspection) where
  -- The command of the job is a publication of the expected post.
  pub same_post :
      (job : JobRow Value) (expected command : JobCommand Inspection)
      (named payload : PublishPostPayload)
      → publication_of expected ≡ some named
      → publication_of command ≡ some payload
      → validate_locked_command serde job expected ≡ ok command
      → named.post_id ≡ payload.post_id
  unfolding validate_locked_command commands_have_same_owner
  same_post job expected command named payload e c valid =
      >>=-elim (into_job serde job) _ valid λ read first rest.
        elim (Bool-cases (commands_have_same_owner expected read.command)) [
          | inr differ ↦ absurd (cc (rw differ at rest))
          | inl owner ↦
              let is_read : read.command ≡ command = ok_arg (rw owner at rest) in
              let left : expected ≡ publish_post named = publication_of-some expected named e in
              let right : read.command ≡ publish_post payload =
                is_read ∙ publication_of-some command payload c in
              (==_iff named.post_id payload.post_id).0 (rw (left, right) at owner)
        ]

  -- A settlement that ended well locked a publication of the expected post, and settled both.
  pub record SettledJob (lease : JobLease) (expected : JobCommand Inspection)
      (settlement : JobSettlement) (db : Store Value) (row : JobRow Value) (db' : Store Value)
      : Type 0 where
    pub job : JobRow Value
    pub payload : PublishPostPayload
    pub locked :
        locked_command serde moment.clock lease expected (allows_expired_lease settlement) db.jobs
        ≡ ok job
    pub named :
        (p : PublishPostPayload) → publication_of expected ≡ some p → p.post_id ≡ payload.post_id
    pub joint : Joint env moment (queue_parameters job settlement) payload job.id db row db'

  pub settle_publish_row-SettledJob :
      (lease : JobLease) (expected : JobCommand Inspection) (settlement : JobSettlement)
      (db : Store Value) (row : JobRow Value) (db' : Store Value)
      → settle_publish_row env moment serde lease expected settlement db ≡ ok (row, db')
      → SettledJob lease expected settlement db row db'
  unfolding settle_publish_row
  settle_publish_row-SettledJob lease expected settlement db row db' h =
      >>=-elim (ok_or (publication_of expected) lease_lost) _ h λ named e1 h1.
        >>=-elim (lock_running_job moment.clock lease (allows_expired_lease settlement) db.jobs) _
          h1
          λ job e2 h2. >>=-elim (validate_locked_command serde job expected) _ h2 λ command e3 h3.
            >>=-elim (ok_or (publication_of command) lease_lost) _ h3 λ payload e4 h4.
              let n : publication_of expected ≡ some named = ok_or-eq-ok _ _ e1 in
              let p : publication_of command ≡ some payload = ok_or-eq-ok _ _ e4 in
              let same : named.post_id ≡ payload.post_id =
                same_post job expected command named payload n p e3 in
              let update : QueueUpdate = queue_parameters job settlement in
              let both : settle_both env moment update
                    (lock_publication_post payload.post_id db.posts) payload update.error_class
                    update.error_message job.id db
                  ≡ ok (row, db') =
                subst
                  (λ id.
                    settle_both env moment update (lock_publication_post id db.posts) payload
                      update.error_class update.error_message job.id db
                    ≡ ok (row, db'))
                  same h4 in
              record {
                job = job;
                payload = payload;
                locked = rw (e2, e3) refl;
                named = λ q h. cc (n, h, same);
                joint =
                    settle_both-Joint env moment update payload update.error_class
                      update.error_message job.id db row db' both;
              }

  -- When the settlement of a publication's job ends well, the queue's settlement of the same lease returns the
  -- same row and leaves the same jobs.
  pub settle_publish-refines :
      (lease : JobLease) (expected : JobCommand Inspection) (settlement : JobSettlement)
      (db : Store Value) (row : JobRow Value) (db' : Store Value)
      → settle_publish_row env moment serde lease expected settlement db ≡ ok (row, db')
      → settle_queue_in_transaction serde moment.now moment.clock lease expected settlement db.jobs
        ≡ (ok row, db'.jobs)
  unfolding settle_queue_in_transaction
  settle_publish-refines lease expected settlement db row db' h =
      let r = settle_publish_row-SettledJob lease expected settlement db row db' h in
      rw (r.locked, settle_queue_in_transaction) r.joint.jobs

  -- The row that an update of the locked job returns has the state of the update.
  updated-state :
      (id : ℕ) (update : QueueUpdate) (rows rows' : Table Value) (row : JobRow Value)
      → update_locked_job moment.now id update rows ≡ (ok row, rows')
      → row.state ≡ update.state
  unfolding update_locked_job
  updated-state id update rows rows' row h =
      elim (Option-cases (update_where (running_row id) (settled moment.now update) rows).0) [
        | inl e ↦
            absurd
              (cc (ap (λ (o : Outcome Value (JobRow Value)). o.0) (rw (e, update_locked_job) at h)))
        | inr (b, e) ↦
            let (a, m, met, same) =
              update_where-some (running_row id) (settled moment.now update) rows b e in
            let is_b : b ≡ row =
              ok_arg
                (ap (λ (o : Outcome Value (JobRow Value)). o.0) (rw (e, update_locked_job) at h)) in
            ap (λ (x : JobRow Value). x.state) (sym is_b ∙ same)
      ]

  -- An update that fails the job for good is terminal, and no other is.
  failed-terminal :
      (job : JobRow Value) (settlement : JobSettlement)
      → str_eq (queue_parameters job settlement).state "failed"
        ≡ (queue_parameters job settlement).terminal
  unfolding queue_parameters
  failed-terminal job (retry run_at class message non_consuming) =
      requeue-terminal (not non_consuming && leb job.max_attempts job.attempt_count)
  failed-terminal job (defer run_at class message non_consuming) =
      requeue-terminal (not non_consuming && leb job.max_attempts job.attempt_count)
  failed-terminal job (fail class message) = refl

  -- When the settlement of a publication's job ends well in a table of posts with distinct ids, a job that failed
  -- for good leaves no post of its id being sent, and after any other settlement the
  -- posts are as they were.
  pub settle_publish-quiet :
      (lease : JobLease) (named : PublishPostPayload) (settlement : JobSettlement)
      (db : Store Value) (row : JobRow Value) (db' : Store Value)
      → Distinct post_id_of db.posts
      → settle_publish_row env moment serde lease (publish_post named) settlement db ≡ ok (row, db')
      → (str_eq row.state "failed" ≡ true
          → (a : PostRow Value) → Mem a db'.posts
          → a.id ≡ named.post_id
          → str_eq a.state "sending" ≡ false)
        × (str_eq row.state "failed" ≡ false → db'.posts ≡ db.posts)
  settle_publish-quiet lease named settlement db row db' d h =
      let r = settle_publish_row-SettledJob lease (publish_post named) settlement db row db' h in
      let terminal : str_eq row.state "failed" ≡ (queue_parameters r.job settlement).terminal =
        ap (λ s. str_eq s "failed")
          (updated-state r.job.id (queue_parameters r.job settlement) db.jobs db'.jobs row
            r.joint.jobs)
        ∙ failed-terminal r.job settlement in
      (
        λ failed a m same.
            ((r.joint.ended (sym terminal ∙ failed) d).quiet a m (same ∙ r.named named refl)).0,
        λ waits. r.joint.kept (sym terminal ∙ waits),
      )
