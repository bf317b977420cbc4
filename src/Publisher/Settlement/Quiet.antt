-- ===== src/Publisher/Settlement/Quiet.antt =====
-- What the terminal settlement of a publication's job does to its post.
use sooqa.Prelude.{
  ℕ, ◌≡◌, refl, sym, subst, ap, ◌∙◌, arith, Bool, true, false, ◌&&◌, ◌||◌, Bool-cases, ◌⊎◌, inl,
  inr, String, ==_iff, List, some, Option-cases,
}
use sooqa.Prelude.Strings.{str_eq}
use sooqa.Prelude.Int.{pos, int_eq}
use sooqa.Prelude.Tables.{update_where, select_where}
use sooqa.Prelude.Tables.Rewrites.{
  Mem, Distinct, Distinct-Mem, select_where-some, select_where-Mem, update_where-Mem,
  update_where-Distinct,
}
use sooqa.Jobs.Commands.{PublishPostPayload}
use sooqa.Publisher.Posts.{PostRow}
use sooqa.Publisher.Posts.Valid.{IsOpen, sending-IsOpen, queued-IsOpen}
use sooqa.Publisher.Store.{Environment, Moment, post_is, fits_columns, update_posts}
use sooqa.Publisher.Store.Runs.{From, Ends, weaken, returned, branch}
use sooqa.Publisher.Store.Swaps.{post_id_of, swap, update_where-swap}
use sooqa.Publisher.Commands.Sending.{ended_send, is_interrupted}
use sooqa.Publisher.Commands.Revisions.{Replaced}
use sooqa.Publisher.Commands.Revisions.Sends.{ended-IsPost, IsEnd}
use sooqa.Publisher.Repository.Steps.{swap-Mem}
use sooqa.Publisher.Settlement.{
  PublicationJobPostRow, lock_publication_post, is_queued_at, execute,
  settle_terminal_publication_post, settle_post,
}

module _ {Value : Type 0} where
  -- The post of the payload is not being sent, nor queued at the payload's revision.
  abbrev pub Quiet : PublishPostPayload → PostRow Value → Type 0
  Quiet payload row =
      (str_eq row.state "sending" ≡ false)
      × ((str_eq row.state "queued" && int_eq payload.expected_revision (pos row.revision)) ≡ false)

  -- The posts are as they were, or one of them was open and has its next revision; and the payload's is quiet.
  pub record Settled (payload : PublishPostPayload) (posts posts' : List (PostRow Value))
      : Type 0 where
    pub moved :
        (posts' ≡ posts)
        ⊎ ((row : PostRow Value) × Replaced payload.post_id
              (λ current row'. Unit {0})
              posts
              row
              posts')
    pub quiet : (a : PostRow Value) → Mem a posts' → a.id ≡ payload.post_id → Quiet payload a

  execute-swap :
      (current : PostRow Value) (p : PostRow Value → Bool) (f : PostRow Value → PostRow Value)
      (posts : List (PostRow Value))
      → ((b : PostRow Value) → p b ≡ true → b.id ≡ current.id)
      → (f current).id ≡ current.id
      → p current ≡ true
      → Distinct post_id_of posts
      → Mem current posts
      → From posts (execute p f) (λ _ posts'. posts' ≡ swap (f current) posts)
  unfolding From Ends update_posts
  execute-swap current p f posts only keep met d m db e =
      let d' : Distinct post_id_of db.posts =
        subst (λ (rows : List (PostRow Value)). Distinct post_id_of rows) (sym e) d in
      let m' : Mem current db.posts =
        subst (λ (rows : List (PostRow Value)). Mem current rows) (sym e) m in
      let found : (update_where p f db.posts).0 ≡ some (f current) =
        update_where-Mem post_id_of current p f db.posts d' m' met only in
      let swapped : (update_where p f db.posts).1 ≡ swap (f current) posts =
        update_where-swap current p f db.posts d' m' met only keep
        ∙ ap (λ (rows : List (PostRow Value)). swap (f current) rows) e in
      elim (Bool-cases (fits_columns (f current))) [
        | inl fits ↦ rw (found, fits, update_posts, Ends) swapped
        | inr large ↦ rw (found, large, update_posts, Ends) tt
      ]

  -- In the table with a row swapped in, the row alone has its id.
  swap-own :
      (row current a : PostRow Value) (posts : List (PostRow Value))
      → Distinct post_id_of posts
      → Mem current posts
      → current.id ≡ row.id
      → Mem a (swap row posts)
      → a.id ≡ row.id
      → a ≡ row
  unfolding swap
  swap-own row current a posts d m own ma same =
      Distinct-Mem post_id_of a row (swap row posts)
        (update_where-Distinct post_id_of (post_is row.id) (λ _. row) posts
          (λ b h. sym ((==_iff b.id row.id).0 h)) d)
        ma (swap-Mem row current posts d m own) same

module _ {Value Zone : Type 0} (env : Environment Value Zone) (moment : Moment) where
  abbrev row_of : PostRow Value → PublicationJobPostRow
  row_of current = record { state = current.state; revision = current.revision }

  interrupted_parts :
      (id : ℕ) (b : PostRow Value) → is_interrupted env moment id b ≡ true → b.id ≡ id
  interrupted_parts id b h = ground arith

  queued_at_parts :
      (id revision : ℕ) (b : PostRow Value) → is_queued_at id revision b ≡ true → b.id ≡ id
  queued_at_parts id revision b h = ground arith

  -- The update that ends the post's wait or its send.
  ended-Settled :
      (payload : PublishPostPayload) (before state class message : String) (current : PostRow Value)
      (posts posts' : List (PostRow Value))
      → (str_eq before "draft" || str_eq before "cancelled") ≡ false
      → IsEnd env moment state
      → str_eq state "queued" ≡ false
      → str_eq current.state before ≡ true
      → IsOpen current
      → Distinct post_id_of posts
      → Mem current posts
      → current.id ≡ payload.post_id
      → posts' ≡ swap (ended_send env moment state class message current) posts
      → Settled payload posts posts'
  ended-Settled payload before state class message current posts posts' left ends other was opens d
        m same swapped =
      let row : PostRow Value = ended_send env moment state class message current in
      record {
        moved = inr (
          row,
          record {
            current = current;
            was_there = m;
            same_id = same;
            keeps_id = same;
            guarded = tt;
            was_open = opens;
            one_more = refl;
            no_less = omega arith;
            keeps_valid = ended-IsPost env moment before state class message current left ends was;
            replaced = swapped;
          },
        );
        quiet = λ a ma h.
            let own : a ≡ row =
              swap-own row current a posts d m refl
                (subst (λ (rows : List (PostRow Value)). Mem a rows) swapped ma) (h ∙ sym same) in
            subst (λ (x : PostRow Value). Quiet payload x) (sym own) (ends.0, rw other refl);
      }

  settle_terminal-Settled :
      (payload : PublishPostPayload) (class message : String) (current : PostRow Value)
      (posts : List (PostRow Value))
      → Distinct post_id_of posts
      → Mem current posts
      → current.id ≡ payload.post_id
      → From posts
          (settle_terminal_publication_post env moment payload.post_id
            (row_of current)
            payload.expected_revision
            class
            message)
          (λ _ posts'. Settled payload posts posts')
  unfolding settle_terminal_publication_post
  settle_terminal-Settled payload class message current posts d m same =
      branch _ _ _ _ _
        (λ waits.
          let queued_now : str_eq current.state "queued" ≡ true = ground arith in
          weaken _ _ _ _
            (execute-swap current (is_queued_at payload.post_id current.revision)
              (ended_send env moment "failed" class message) posts
              (λ b h. queued_at_parts payload.post_id current.revision b h ∙ sym same) refl
              (ground arith) d m)
            λ _ posts' swapped.
              ended-Settled payload "queued" "failed" class message current posts posts' refl
                (refl, refl) refl queued_now (queued-IsOpen current queued_now) d m same swapped)
        λ idle.
          branch _ _ _ _ _
            (λ sent.
              weaken _ _ _ _
                (execute-swap current (is_interrupted env moment payload.post_id)
                  (ended_send env moment "unknown" class message) posts
                  (λ b h. interrupted_parts payload.post_id b h ∙ sym same) refl (ground arith) d m)
                λ _ posts' swapped.
                  ended-Settled payload "sending" "unknown" class message current posts posts' refl
                    (refl, refl) refl sent (sending-IsOpen current sent) d m same swapped)
            λ unsent. returned _ _ _ (record {
              moved = inl refl;
              quiet = λ a ma h.
                  let own : a ≡ current =
                    Distinct-Mem post_id_of a current posts d ma m (h ∙ sym same) in
                  subst (λ (x : PostRow Value). Quiet payload x) (sym own) (unsent, idle);
            })

  -- A terminal settlement leaves the payload's post quiet.
  pub settle_post-Settled :
      (payload : PublishPostPayload) (class message : String) (posts : List (PostRow Value))
      → Distinct post_id_of posts
      → From posts
          (settle_post env moment true
            (lock_publication_post payload.post_id posts)
            payload
            class
            message)
          (λ _ posts'. Settled payload posts posts')
  unfolding settle_post lock_publication_post
  settle_post-Settled payload class message posts d =
      elim (Option-cases (select_where (post_is payload.post_id) posts)) [
        | inl missing ↦
            rw (missing, settle_post)
              (returned _ _ _ (record {
                moved = inl refl;
                quiet = λ a m same.
                    let found =
                      select_where-Mem post_id_of a (post_is payload.post_id) posts d m
                        ((==_iff a.id payload.post_id).1 same)
                        λ b h. (==_iff b.id payload.post_id).0 h ∙ sym same in
                    absurd (cc (missing, found));
              }))
        | inr (current, e) ↦
            let (m, h) = select_where-some (post_is payload.post_id) posts current e in
            rw (e, settle_post)
              (settle_terminal-Settled payload class message current posts d m
                ((==_iff current.id payload.post_id).0 h))
      ]
