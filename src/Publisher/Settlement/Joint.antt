-- ===== src/Publisher/Settlement/Joint.antt =====
-- The update of a publication's job and the settlement of its post, one after the other.
use sooqa.Prelude.{
  ℕ, ◌≡◌, refl, sym, subst, ap, ◌∙◌, String, Bool, true, false, ◌&&◌, Bool-cases, inl, inr, List,
  Option, none, some, Option-cases, Result, ok, err, >>=-eq-ok,
}
use sooqa.Prelude.Strings.{str_eq}
use sooqa.Prelude.Int.{ℤ, pos, int_eq}
use sooqa.Prelude.Tables.{update_where}
use sooqa.Prelude.Tables.Rewrites.{Distinct}
use sooqa.Jobs.Commands.{JobCommand, PublishPostPayload, publish_post}
use sooqa.Jobs.Rows.{JobRow, JobRepositoryError, database}
use sooqa.Jobs.Table.{Table}
use sooqa.Jobs.Queue.{Outcome}
use sooqa.Jobs.Settlement.{QueueUpdate, update_locked_job}
use sooqa.Publisher.Posts.{PostRow, PublisherRepositoryError}
use sooqa.Publisher.Store.{Environment, Moment, Store, Tx, pure, update_posts, fits_columns}
use sooqa.Publisher.Store.Runs.{From, Ends}
use sooqa.Publisher.Store.Swaps.{post_id_of}
use sooqa.Publisher.Settlement.{
  PublicationJobPostRow, publication_of, lock_publication_post, execute, on_posts,
  settle_terminal_publication_post, settle_post, settle_both,
}
use sooqa.Publisher.Settlement.Quiet.{Settled, settle_post-Settled}

pub publication_of-some :
    {Inspection : Type 0} (c : JobCommand Inspection) (payload : PublishPostPayload)
    → publication_of c ≡ some payload
    → c ≡ publish_post payload
publication_of-some (publish_post p) payload h = cc
publication_of-some _ payload h = absurd (cc h)

-- The value of a step that ended well.
abbrev pub done_well : {A : Type 0} → A → Result JobRepositoryError A
done_well a = ok a

pub ok_arg : {A : Type 0} {a b : A} → done_well a ≡ ok b → a ≡ b
ok_arg h = cc

module _ {Value : Type 0} where
  -- The transaction fails, or ends with the jobs as they were.
  abbrev KeepsJobs : Tx Value (Unit {0}) → Type 0
  KeepsJobs m = (db db' : Store Value) → on_posts m db ≡ ok db' → db'.jobs ≡ db.jobs

  abbrev jobs_of : Store Value → Table Value
  jobs_of db = db.jobs

  pure-KeepsJobs : KeepsJobs (pure tt)
  pure-KeepsJobs db db' h = ap jobs_of (sym (ok_arg h))

  execute-KeepsJobs :
      (p : PostRow Value → Bool) (f : PostRow Value → PostRow Value) → KeepsJobs (execute p f)
  unfolding update_posts
  execute-KeepsJobs p f db db' h = elim (Option-cases (update_where p f db.posts).0) [
    | inl e ↦ ap jobs_of (sym (ok_arg (rw (e, on_posts, execute, update_posts) at h)))
    | inr (row, e) ↦ elim (Bool-cases (fits_columns row)) [
      | inl fits ↦ ap jobs_of (sym (ok_arg (rw (e, fits, on_posts, execute, update_posts) at h)))
      | inr large ↦ absurd (cc (rw (e, large, on_posts, execute, update_posts) at h))
    ]
  ]

  on_jobs-of :
      {A : Type 0} (r : Outcome Value A) (db db' : Store Value) (a : A)
      → elim r.0 [ err e ↦ err e | ok x ↦ ok (x, record db { jobs = r.1 }) ]
        ≡ done_well {A = A × Store Value} (a, db')
      → (r ≡ (ok a, db'.jobs)) × (db'.posts ≡ db.posts)
  on_jobs-of {A = A} (ok x, rows) db db' a h =
      let same : (x, record db { jobs = rows }) ≡ (a, db') = ok_arg h in
      (
        ap (λ (y : A × Store Value). (ok y.0, y.1.jobs)) same,
        ap (λ (y : A × Store Value). y.1.posts) (sym same),
      )
  on_jobs-of (err e, rows) db db' a h = absurd (cc h)

module _ {Value Zone : Type 0} (env : Environment Value Zone) (moment : Moment) where
  settle_terminal-KeepsJobs :
      (post_id : ℕ) (post : PublicationJobPostRow) (expected : ℤ) (class message : String)
      → KeepsJobs (settle_terminal_publication_post env moment post_id post expected class message)
  unfolding settle_terminal_publication_post
  settle_terminal-KeepsJobs post_id post expected class message =
      elim (Bool-cases (str_eq post.state "queued" && int_eq expected (pos post.revision))) [
        | inl e ↦ rw e (execute-KeepsJobs _ _)
        | inr e ↦ elim (Bool-cases (str_eq post.state "sending")) [
          | inl s ↦ rw (e, s) (execute-KeepsJobs _ _)
          | inr s ↦ rw (e, s) pure-KeepsJobs
        ]
      ]

  settle_post-KeepsJobs :
      (terminal : Bool) (post : Option PublicationJobPostRow) (payload : PublishPostPayload)
      (class message : String)
      → KeepsJobs (settle_post env moment terminal post payload class message)
  unfolding settle_post
  settle_post-KeepsJobs true (some post) payload class message =
      settle_terminal-KeepsJobs payload.post_id post payload.expected_revision class message
  settle_post-KeepsJobs true none payload class message = pure-KeepsJobs
  settle_post-KeepsJobs false post payload class message = pure-KeepsJobs

  -- The job is updated as the queue alone does it, and the post is settled if the update is terminal.
  pub record Joint (update : QueueUpdate) (payload : PublishPostPayload) (job_id : ℕ)
      (db : Store Value) (row : JobRow Value) (db' : Store Value) : Type 0 where
    pub jobs : update_locked_job moment.now job_id update db.jobs ≡ (ok row, db'.jobs)
    pub kept : update.terminal ≡ false → db'.posts ≡ db.posts
    pub ended :
        update.terminal ≡ true → Distinct post_id_of db.posts → Settled payload db.posts db'.posts

  on_posts-Ends :
      (m : Tx Value (Unit {0})) (db db' : Store Value) (R : List (PostRow Value) → Type 0)
      → on_posts m db ≡ ok db'
      → Ends (λ _ posts. R posts) (m db)
      → R db'.posts
  unfolding Ends
  on_posts-Ends m db db' R h ends = ended (m db) h ends
    where
      ended :
          (r : Result PublisherRepositoryError (Unit {0} × Store Value))
          → elim r [ err e ↦ err database | ok (_, x) ↦ ok x ] ≡ done_well db'
          → Ends (λ _ posts. R posts) r
          → R db'.posts
      ended (ok (u, x)) e holds = subst (λ (y : Store Value). R y.posts) (ok_arg e) holds
      ended (err x) e holds = absurd (cc e)

  pub settle_both-Joint :
      (update : QueueUpdate) (payload : PublishPostPayload) (class message : String) (job_id : ℕ)
      (db : Store Value) (row : JobRow Value) (db' : Store Value)
      → settle_both env moment update
          (lock_publication_post payload.post_id db.posts)
          payload
          class
          message
          job_id
          db
        ≡ ok (row, db')
      → Joint update payload job_id db row db'
  unfolding settle_both From settle_post
  settle_both-Joint update payload class message job_id db row db' h =
      let post = lock_publication_post payload.post_id db.posts in
      let m = settle_post env moment update.terminal post payload class message in
      let (db1, first, rest) = >>=-eq-ok (on_posts m db) _ h in
      let same : db1.jobs ≡ db.jobs =
        settle_post-KeepsJobs update.terminal post payload class message db db1 first in
      let done =
        on_jobs-of (update_locked_job moment.now job_id update db1.jobs) db1 db' row rest in
      record {
        jobs =
            subst
              (λ (rows : Table Value).
                update_locked_job moment.now job_id update rows ≡ (ok row, db'.jobs))
              same done.0;
        kept = λ e.
            let idle : settle_post env moment update.terminal post payload class message ≡ pure tt =
              ap (λ t. settle_post env moment t post payload class message) e in
            let still : db ≡ db1 =
              ok_arg (subst (λ (t : Tx Value (Unit {0})). on_posts t db ≡ ok db1) idle first) in
            done.1 ∙ ap (λ (x : Store Value). x.posts) (sym still);
        ended = λ e d.
            let settles : From db.posts
                (settle_post env moment update.terminal post payload class message)
                (λ _ posts'. Settled payload db.posts posts') =
              subst
                (λ t.
                  From db.posts (settle_post env moment t post payload class message)
                    (λ _ posts'. Settled payload db.posts posts'))
                (sym e) (settle_post-Settled env moment payload class message db.posts d) in
            subst (λ (posts : List (PostRow Value)). Settled payload db.posts posts) (sym done.1)
              (on_posts-Ends m db db1 (Settled payload db.posts) first (settles db refl));
      }
