-- ===== src/Publisher/Settlement/Recovery.antt =====
-- The recovery of a publication's job whose lease has expired is the queue's recovery of that job, together
-- with the settlement of its post.
use sooqa.Prelude.{
  ℕ, ◌≡◌, refl, sym, subst, ap, Bool, true, false, inl, inr, Option, none, some, Option-cases, ok,
  ok_or, >>=-elim, ok_or-eq-ok,
}
use sooqa.Jobs.Commands.{JobCommand, Serde, PublishPostPayload}
use sooqa.Jobs.Rows.{JobRow, lease_lost}
use sooqa.Jobs.Settlement.{
  expired_update, lock_expired_job, validate_locked_command, recover_queue_only_in_transaction,
}
use sooqa.Publisher.Intent.{is_some}
use sooqa.Publisher.Store.{Environment, Moment, Store}
use sooqa.Publisher.Settlement.{
  publication_of, lock_publication_post, expired_class, expired_message, settle_both,
  recover_expired, recover_publish_row,
}
use sooqa.Publisher.Settlement.Joint.{Joint, settle_both-Joint, ok_arg}
use sooqa.Publisher.Settlement.Refinement.{same_post}

module _ {Value Zone Inspection : Type 0} (env : Environment Value Zone) (moment : Moment)
    (serde : Serde Value Inspection) where
  -- A recovery that ended well found an expired job and settled both, or found none and changed nothing.
  pub record RecoveredJob (job_id : ℕ) (expected : JobCommand Inspection) (db : Store Value)
      (db' : Store Value) : Type 0 where
    pub job : JobRow Value
    pub command : JobCommand Inspection
    pub payload : PublishPostPayload
    pub row : JobRow Value
    pub locked : lock_expired_job moment.clock job_id db.jobs ≡ some job
    pub checked : validate_locked_command serde job expected ≡ ok command
    pub joint : Joint env moment (expired_update moment.local job) payload job.id db row db'

  recover_expired-RecoveredJob :
      (job_id : ℕ) (expected : JobCommand Inspection) (named : PublishPostPayload)
      (job : JobRow Value) (db : Store Value) (b : Bool) (db' : Store Value)
      → publication_of expected ≡ some named
      → lock_expired_job moment.clock job_id db.jobs ≡ some job
      → recover_expired env moment serde named.post_id expected job db ≡ ok (b, db')
      → RecoveredJob job_id expected db db' × (b ≡ true)
  unfolding recover_expired
  recover_expired-RecoveredJob job_id expected named job db b db' n found h =
      >>=-elim (validate_locked_command serde job expected) _ h λ command e1 h1.
        >>=-elim (ok_or (publication_of command) lease_lost) _ h1 λ payload e2 h2.
          >>=-elim
            (settle_both env moment (expired_update moment.local job)
              (lock_publication_post named.post_id db.posts) payload
              (expired_class env moment (lock_publication_post named.post_id db.posts) job)
              (expired_message env moment (lock_publication_post named.post_id db.posts) job) job.id
              db)
            _ h2
            λ done e3 h3.
              let same : named.post_id ≡ payload.post_id =
                same_post env moment serde job expected command named payload n (ok_or-eq-ok _ _ e2)
                  e1 in
              let is_done : (true, done.1) ≡ (b, db') = ok_arg {A = Bool × Store Value} h3 in
              let joint : Joint env moment (expired_update moment.local job) payload job.id db
                  done.0 done.1 =
                settle_both-Joint env moment (expired_update moment.local job) payload _ _ job.id db
                  done.0 done.1
                  (subst
                    (λ id.
                      settle_both env moment (expired_update moment.local job)
                        (lock_publication_post id db.posts) payload
                        (expired_class env moment (lock_publication_post named.post_id db.posts)
                          job)
                        (expired_message env moment (lock_publication_post named.post_id db.posts)
                          job)
                        job.id db
                      ≡ ok done)
                    same e3) in
              (
                record {
                  job = job;
                  command = command;
                  payload = payload;
                  row = done.0;
                  locked = found;
                  checked = e1;
                  joint =
                      subst
                        (λ (x : Store Value).
                          Joint env moment (expired_update moment.local job) payload job.id db
                            done.0 x)
                        (ap (λ (y : Bool × Store Value). y.1) is_done) joint;
                },
                ap (λ (y : Bool × Store Value). y.0) (sym is_done),
              )

  -- What a recovery that ended well has done.
  abbrev pub Recovered : ℕ → JobCommand Inspection → Store Value → Bool → Store Value → Type 0
  Recovered job_id expected db true db' = RecoveredJob job_id expected db db'
  Recovered job_id expected db false db' =
      (lock_expired_job moment.clock job_id db.jobs ≡ none) × (db' ≡ db)

  pub recover_publish_row-Recovered :
      (job_id : ℕ) (expected : JobCommand Inspection) (db : Store Value) (b : Bool)
      (db' : Store Value)
      → recover_publish_row env moment serde job_id expected db ≡ ok (b, db')
      → Recovered job_id expected db b db'
  unfolding recover_publish_row
  recover_publish_row-Recovered job_id expected db b db' h =
      >>=-elim (ok_or (publication_of expected) lease_lost) _ h λ named e1 h1.
        elim (Option-cases (lock_expired_job moment.clock job_id db.jobs)) [
          | inl e ↦
              let same : (false, db) ≡ (b, db') = ok_arg {A = Bool × Store Value} (rw e at h1) in
              subst (λ (y : Bool × Store Value). Recovered job_id expected db y.0 y.1) same
                (e, refl)
          | inr (job, e) ↦
              let done =
                recover_expired-RecoveredJob job_id expected named job db b db' (ok_or-eq-ok _ _ e1)
                  e (rw e at h1) in
              subst (λ c. Recovered job_id expected db c db') (sym done.1) done.0
        ]

  -- When the recovery of a publication's job ends well, the queue's recovery of the same job leaves the same jobs,
  -- and finds a job exactly when this one reports it.
  pub recover_publish-refines :
      (job_id : ℕ) (expected : JobCommand Inspection) (db : Store Value) (b : Bool)
      (db' : Store Value)
      → recover_publish_row env moment serde job_id expected db ≡ ok (b, db')
      → (o : Option (JobRow Value)) × ((recover_queue_only_in_transaction serde moment.now
              moment.clock moment.local job_id expected db.jobs
            ≡ (ok o, db'.jobs))
          × (is_some o ≡ b))
  unfolding recover_queue_only_in_transaction
  recover_publish-refines job_id expected db true db' h =
      let r = recover_publish_row-Recovered job_id expected db true db' h in
      (
        some r.row,
        (rw (r.locked, r.checked, r.joint.jobs, recover_queue_only_in_transaction) refl, refl),
      )
  recover_publish-refines job_id expected db false db' h =
      let (missing, same) = recover_publish_row-Recovered job_id expected db false db' h in
      (none, (rw (missing, same, recover_queue_only_in_transaction) refl, refl))
