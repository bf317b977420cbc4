-- ===== src/Publisher/Repository/History.antt =====
-- The tables that the operations lead to, one after another in any order.
use sooqa.Prelude.{ℕ, ◌≤◌, ◌≡◌, refl, sym, subst, ◌∙◌, arith, inl, inr, List}
use sooqa.Prelude.Int.{ℤ}
use sooqa.Prelude.Tables.Rewrites.{Mem, Distinct, Distinct-Mem}
use sooqa.Jobs.Commands.{JobCommand, Serde}
use sooqa.Jobs.Rows.{JobLease, JobSettlement}
use sooqa.Publisher.Posts.{PostRow}
use sooqa.Publisher.Posts.Valid.{IsOpen}
use sooqa.Publisher.Store.{Environment, Moment, Store}
use sooqa.Publisher.Store.Swaps.{post_id_of}
use sooqa.Publisher.Creation.{NewPost}
use sooqa.Publisher.Commands.Sending.{PublishLease}
use sooqa.Publisher.Commands.Revisions.Sends.{Claimed}
use sooqa.Publisher.Commands.Revisions.Sending.{claim_row-Command, reconcile_row-Interrupted}
use sooqa.Publisher.Settlement.{settle_publish_job, recover_publish_job}
use sooqa.Publisher.Repository.Changes.{command-Follows, end_send-Follows, Interrupted-Follows}
use sooqa.Publisher.Repository.Creations.{create_row-Follows}
use sooqa.Publisher.Repository.Settlements.{settle_publish_job-Follows, recover_publish_job-Follows}
use sooqa.Publisher.Repository.{
  PostCommand, SendEnd, command, claim_publish, reconcile_interrupted_publish,
  create_post_idempotent, end_send,
}
use sooqa.Publisher.Repository.Steps.{
  IsValid, Later, Follows, Follows-refl, Follows-trans, Command-Follows, transact_rule,
}

module _ {Value Zone Inspection : Type 0} (env : Environment Value Zone)
    (serde : Serde Value Inspection) where
  -- A step by an operation, at any time and with any arguments, whatever its result.
  pub data Step : Store Value → Store Value → Type 0 where
    commanded :
        {db : Store Value} (moment : Moment) (c : PostCommand) → Step db (command env moment c db).1
    claimed :
        {db : Store Value} (moment : Moment) (id : ℕ) (expected_revision : ℤ) (attempt : JobLease)
        → Step db (claim_publish env moment id expected_revision attempt db).1
    ended :
        {db : Store Value} (moment : Moment) (id : ℕ) (lease : PublishLease) (e : SendEnd)
        → Step db (end_send env moment id lease e db)
    reconciled :
        {db : Store Value} (moment : Moment) (id : ℕ) (attempt : JobLease)
        → Step db (reconcile_interrupted_publish env moment id attempt db).1
    created :
        {db : Store Value} (moment : Moment) (post : NewPost) (request_key request_hash : List ℕ)
        → Step db (create_post_idempotent env moment post request_key request_hash db).1
    settled :
        {db : Store Value} (moment : Moment) (lease : JobLease) (named : JobCommand Inspection)
        (settlement : JobSettlement)
        → Step db (settle_publish_job env moment serde lease named settlement db).1
    recovered :
        {db : Store Value} (moment : Moment) (job_id : ℕ) (named : JobCommand Inspection)
        → Step db (recover_publish_job env moment serde job_id named db).1

  pub data Reaches : Store Value → Store Value → Type 0 where
    start : {db : Store Value} → Reaches db db
    next : {db db' db'' : Store Value} → Reaches db db' → Step db' db'' → Reaches db db''

  pub Step-Follows :
      (db db' : Store Value)
      → Step db db'
      → Distinct post_id_of db.posts
      → Follows db.posts db'.posts
  unfolding claim_publish reconcile_interrupted_publish create_post_idempotent
  Step-Follows db _ (commanded moment c) d = command-Follows env moment c db d
  Step-Follows db _ (claimed moment id expected_revision attempt) d =
      transact_rule _ (Follows db.posts) _ db
        (claim_row-Command env moment id expected_revision attempt db.posts d)
        (Follows-refl db.posts)
        λ claim posts' h. Command-Follows id (Claimed expected_revision) db.posts posts' claim.0 d h
  Step-Follows db _ (ended moment id lease e) d = end_send-Follows env moment id lease e db d
  Step-Follows db _ (reconciled moment id attempt) d =
      transact_rule _ (Follows db.posts) _ db
        (reconcile_row-Interrupted env moment id attempt db.posts d) (Follows-refl db.posts)
        λ b posts' h. Interrupted-Follows env moment id db.posts posts' b d h
  Step-Follows db _ (created moment post request_key request_hash) d =
      transact_rule _ (Follows db.posts) _ db
        (create_row-Follows moment post request_key request_hash db.posts) (Follows-refl db.posts)
        λ done posts' h. h
  Step-Follows db _ (settled moment lease named settlement) d =
      settle_publish_job-Follows env moment serde lease named settlement db d
  Step-Follows db _ (recovered moment job_id named) d =
      recover_publish_job-Follows env moment serde job_id named db d

  Reaches-Follows :
      (db db' : Store Value)
      → Reaches db db'
      → IsValid db.posts
      → Follows db.posts db'.posts × IsValid db'.posts
  Reaches-Follows db _ start v = (Follows-refl db.posts, v)
  Reaches-Follows db db'' (next {db' = db'} r s) v =
      let (f, v') = Reaches-Follows db db' r v in
      let g : Follows db'.posts db''.posts = Step-Follows db' db'' s v'.1 in
      (Follows-trans db.posts db'.posts db''.posts f g, g.keeps v')

  -- Whatever operations run, in any order and with any arguments, the posts stay as the table keeps them: the
  -- ids differ; a post has a token and a start exactly while it is sent; a published post has a message and a
  -- time; a cadence slot is the post's time; and a post with evidence of a repeat that nobody has decided on is a
  -- draft or cancelled.
  pub Reaches-IsValid :
      (db db' : Store Value) → Reaches db db' → IsValid db.posts → IsValid db'.posts
  Reaches-IsValid db db' r v = (Reaches-Follows db db' r v).1

  -- A post that is published, unknown or cancelled is never changed again and never removed.
  pub closed_forever :
      (db db' : Store Value) (a : PostRow Value)
      → Reaches db db'
      → IsValid db.posts
      → Mem a db.posts
      → ¬ IsOpen a
      → Mem a db'.posts
  closed_forever db db' a r v m closed =
      let (b, (mb, (e, l))) = (Reaches-Follows db db' r v).0.later a m in
      elim l [
        | inl same ↦ subst (λ (x : PostRow Value). Mem x db'.posts) same mb
        | inr changed ↦ absurd (closed changed.0)
      ]

  -- A revision names one content of a post: at the same revision, the post is the same in every column; and a
  -- post's revision and its generation of sends never fall.
  pub revision-names :
      (db db' : Store Value) (a b : PostRow Value)
      → Reaches db db'
      → IsValid db.posts
      → Mem a db.posts
      → Mem b db'.posts
      → b.id ≡ a.id
      → (a.revision ≤ b.revision)
        × (a.send_generation ≤ b.send_generation)
        × (b.revision ≡ a.revision → b ≡ a)
  revision-names db db' a b r v ma mb same =
      let (f, v') = Reaches-Follows db db' r v in
      let (c, (mc, (e, l))) = f.later a ma in
      let own : c ≡ b = Distinct-Mem post_id_of c b db'.posts v'.1 mc mb (e ∙ sym same) in
      named b (subst (λ (x : PostRow Value). Later a x) own l)
    where
      named :
          (x : PostRow Value)
          → Later a x
          → (a.revision ≤ x.revision)
            × (a.send_generation ≤ x.send_generation)
            × (x.revision ≡ a.revision → x ≡ a)
      named x (inl is_a) =
          subst
            (λ (y : PostRow Value).
              (a.revision ≤ y.revision)
              × (a.send_generation ≤ y.send_generation)
              × (y.revision ≡ a.revision → y ≡ a))
            (sym is_a) (omega arith, omega arith, λ _. refl)
      named x (inr (opens, (less, least))) = (omega arith, least, λ h. absurd (omega arith))
