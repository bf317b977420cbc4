-- ===== src/Publisher/Repository/Settlements.antt =====
-- The settlement and the recovery of a job change one post at most, to its next revision, and only while
-- the post is open.
use sooqa.Prelude.{
  ℕ, ◌≡◌, refl, sym, subst, ap, Bool, true, false, Bool-cases, inl, inr, List, Result, ok, err,
}
use sooqa.Prelude.Tables.Rewrites.{Distinct}
use sooqa.Jobs.Commands.{JobCommand, Serde, PublishPostPayload}
use sooqa.Jobs.Rows.{JobRow, JobLease, JobSettlement, JobRepositoryError}
use sooqa.Jobs.Settlement.{QueueUpdate}
use sooqa.Publisher.Posts.{PostRow}
use sooqa.Publisher.Store.{Environment, Moment, Store}
use sooqa.Publisher.Store.Swaps.{post_id_of}
use sooqa.Publisher.Settlement.{
  job_committed, settle_publish_row, settle_publish_job, recover_publish_row, recover_publish_job,
}
use sooqa.Publisher.Settlement.Quiet.{Settled}
use sooqa.Publisher.Settlement.Joint.{Joint}
use sooqa.Publisher.Settlement.Refinement.{settle_publish_row-SettledJob}
use sooqa.Publisher.Settlement.Recovery.{Recovered, recover_publish_row-Recovered}
use sooqa.Publisher.Repository.Steps.{Follows, Follows-refl, Replaced-Follows}

module _ {Value : Type 0} where
  abbrev Same-Follows :
      (posts posts' : List (PostRow Value)) → posts' ≡ posts → Follows posts posts'
  Same-Follows posts posts' same =
      subst (λ (x : List (PostRow Value)). Follows posts x) (sym same) (Follows-refl posts)

  Settled-Follows :
      (payload : PublishPostPayload) (posts posts' : List (PostRow Value))
      → Distinct post_id_of posts
      → Settled payload posts posts'
      → Follows posts posts'
  Settled-Follows payload posts posts' d s = elim s.moved [
    | inl same ↦ Same-Follows posts posts' same
    | inr (row, r) ↦ Replaced-Follows payload.post_id _ posts posts' row d r
  ]

  job_committed-Follows :
      {A : Type 0} (db : Store Value) (r : Result JobRepositoryError (A × Store Value))
      → ((a : A) (db' : Store Value) → r ≡ ok (a, db') → Follows db.posts db'.posts)
      → Follows db.posts (job_committed db r).1.posts
  job_committed-Follows db (ok (a, db')) f = f a db' refl
  job_committed-Follows db (err e) f = Follows-refl db.posts

module _ {Value Zone : Type 0} (env : Environment Value Zone) (moment : Moment) where
  Joint-Follows :
      (update : QueueUpdate) (payload : PublishPostPayload) (job_id : ℕ) (db : Store Value)
      (row : JobRow Value) (db' : Store Value)
      → Distinct post_id_of db.posts
      → Joint env moment update payload job_id db row db'
      → Follows db.posts db'.posts
  Joint-Follows update payload job_id db row db' d j = elim (Bool-cases update.terminal) [
    | inl e ↦ Settled-Follows payload db.posts db'.posts d (j.ended e d)
    | inr e ↦ Same-Follows db.posts db'.posts (j.kept e)
  ]

  module _ {Inspection : Type 0} (serde : Serde Value Inspection) where
    pub settle_publish_job-Follows :
        (lease : JobLease) (expected : JobCommand Inspection) (settlement : JobSettlement)
        (db : Store Value)
        → Distinct post_id_of db.posts
        → Follows db.posts
            (settle_publish_job env moment serde lease expected settlement db).1.posts
    unfolding settle_publish_job
    settle_publish_job-Follows lease expected settlement db d =
        job_committed-Follows db (settle_publish_row env moment serde lease expected settlement db)
          λ row db' h.
            let r =
              settle_publish_row-SettledJob env moment serde lease expected settlement db row db'
                h in
            Joint-Follows _ r.payload r.job.id db row db' d r.joint

    pub recover_publish_job-Follows :
        (job_id : ℕ) (expected : JobCommand Inspection) (db : Store Value)
        → Distinct post_id_of db.posts
        → Follows db.posts (recover_publish_job env moment serde job_id expected db).1.posts
    unfolding recover_publish_job
    recover_publish_job-Follows job_id expected db d =
        job_committed-Follows db (recover_publish_row env moment serde job_id expected db)
          λ b db' h.
            recovered b db'
              (recover_publish_row-Recovered env moment serde job_id expected db b db' h)
      where
        recovered :
            (b : Bool) (db' : Store Value)
            → Recovered env moment serde job_id expected db b db'
            → Follows db.posts db'.posts
        recovered true db' r = Joint-Follows _ r.payload r.job.id db r.row db' d r.joint
        recovered false db' (missing, same) =
            Same-Follows db.posts db'.posts (ap (λ (x : Store Value). x.posts) same)
