-- ===== src/Publisher/Repository/Steps.antt =====
-- Every operation changes one post at most, to its next revision, and only while the post is open.
use sooqa.Prelude.{
  ℕ, ◌≤◌, ◌<◌, ◌≡◌, ◌≢◌, refl, sym, subst, ◌∙◌, arith, true, false, ◌⊎◌, inl, inr, List, Result, ok,
  err, All, All-append, [], ◌∷◌, ◌++◌, ◌==◌, ==_iff, Bool-cases,
}
use sooqa.Prelude.Tables.{update_where, exists_where}
use sooqa.Prelude.Tables.Rewrites.{
  Mem, here, there, Distinct, Distinct-Mem, update_where-All, update_where-Distinct,
  Mem-update_where,
}
use sooqa.Prelude.Tables.Inserts.{Mem-append, Distinct-append, fresh_key}
use sooqa.Publisher.Creation.{insert_post, has_request_key}
use sooqa.Publisher.Posts.{PostRow, PublisherRepositoryError}
use sooqa.Publisher.Posts.Valid.{IsPost, IsOpen}
use sooqa.Publisher.Store.{Store, Tx, committed, transact, post_is}
use sooqa.Publisher.Store.Runs.{From, Ends}
use sooqa.Publisher.Store.Swaps.{post_id_of, swap}
use sooqa.Publisher.Commands.Revisions.{Command, Replaced}

module _ {Value : Type 0} where
  -- What the table of posts keeps.
  abbrev pub IsValid : List (PostRow Value) → Type 0
  IsValid posts = All IsPost posts × Distinct post_id_of posts

  -- The post is as it was, or it was open and has a later revision, and no earlier generation of sends.
  abbrev pub Later : PostRow Value → PostRow Value → Type 0
  Later a b =
      (b ≡ a) ⊎ (IsOpen a × ((a.revision < b.revision) × (a.send_generation ≤ b.send_generation)))

  -- A later table keeps what is valid, and has every post, as it was or later.
  pub record Follows (posts posts' : List (PostRow Value)) : Type 0 where
    pub keeps : IsValid posts → IsValid posts'
    pub later :
        (a : PostRow Value)
        → Mem a posts
        → (b : PostRow Value) × (Mem b posts' × ((b.id ≡ a.id) × Later a b))

  pub Follows-refl : (posts : List (PostRow Value)) → Follows posts posts
  Follows-refl posts = record { keeps = λ v. v; later = λ a m. (a, (m, (refl, inl refl))) }

  Later-trans : (a b c : PostRow Value) → Later a b → Later b c → Later a c
  Later-trans a b c (inl e) l = subst (λ (x : PostRow Value). Later x c) e l
  Later-trans a b c (inr h) (inl e) = subst (λ (x : PostRow Value). Later a x) (sym e) (inr h)
  Later-trans a b c (inr (opens, (r, g))) (inr (opens', (r', g'))) =
      inr (opens, (omega arith, omega arith))

  pub Follows-trans : (p q r : List (PostRow Value)) → Follows p q → Follows q r → Follows p r
  Follows-trans p q r f g = record {
    keeps = λ v. g.keeps (f.keeps v);
    later = λ a m.
        let (b, (mb, (eb, lb))) = f.later a m in
        let (c, (mc, (ec, lc))) = g.later b mb in (c, (mc, (ec ∙ eb, Later-trans a b c lb lc)));
  }

  Mem-swap_other :
      (row a : PostRow Value) (posts : List (PostRow Value))
      → Mem a posts
      → a.id ≢ row.id
      → Mem a (swap row posts)
  unfolding swap update_where
  Mem-swap_other row a _ (here {rows}) other =
      let not_met : (a.id == row.id) ≡ false = elim (Bool-cases (a.id == row.id)) [
        | inl e ↦ absurd (other ((==_iff a.id row.id).0 e))
        | inr e ↦ e
      ] in
      rw (not_met, swap) here
  Mem-swap_other row a _ (there {b} {rows} m) other = elim (Bool-cases (b.id == row.id)) [
    | inl e ↦ rw (e, swap) (there m)
    | inr e ↦ rw (e, swap) (there (Mem-swap_other row a rows m other))
  ]

  swap-IsValid :
      (row : PostRow Value) (posts : List (PostRow Value))
      → IsValid posts
      → ((a : PostRow Value) → Mem a posts → post_is row.id a ≡ true → IsPost a → IsPost row)
      → IsValid (swap row posts)
  unfolding swap
  swap-IsValid row posts v good = (
    update_where-All IsPost (post_is row.id) (λ _. row) posts good v.0,
    update_where-Distinct post_id_of (post_is row.id) (λ _. row) posts
        (λ a h. sym ((==_iff a.id row.id).0 h)) v.1,
  )

  pub swap-Mem :
      (row current : PostRow Value) (posts : List (PostRow Value))
      → Distinct post_id_of posts
      → Mem current posts
      → current.id ≡ row.id
      → Mem row (swap row posts)
  unfolding swap
  swap-Mem row current posts d m own =
      Mem-update_where post_id_of current (post_is row.id) (λ _. row) posts d m
        ((==_iff current.id row.id).1 own) λ b h. (==_iff b.id row.id).0 h ∙ sym own

  pub Replaced-Follows :
      (id : ℕ) (Guard : PostRow Value → PostRow Value → Type 0)
      (posts posts' : List (PostRow Value)) (row : PostRow Value)
      → Distinct post_id_of posts
      → Replaced id Guard posts row posts'
      → Follows posts posts'
  Replaced-Follows id Guard posts posts' row d r =
      let own : r.current.id ≡ row.id = r.same_id ∙ sym r.keeps_id in
      let only : (a : PostRow Value) → Mem a posts → post_is row.id a ≡ true → a ≡ r.current =
        λ a m h.
          Distinct-Mem post_id_of a r.current posts d m r.was_there
            ((==_iff a.id row.id).0 h ∙ sym own) in
      record {
        keeps = λ v. subst IsValid (sym r.replaced) (
            swap-IsValid row posts v
              λ a m h va. r.keeps_valid (subst (λ (x : PostRow Value). IsPost x) (only a m h) va));
        later = λ a m. elim (Bool-cases (post_is row.id a)) [
          | inl e ↦
              let same : r.current ≡ a = sym (only a m e) in
              let there_now : Mem row (swap row posts) =
                swap-Mem row r.current posts d r.was_there own in
              (
                row,
                (
                  subst (λ (x : List (PostRow Value)). Mem row x) (sym r.replaced) there_now,
                  (
                    sym ((==_iff a.id row.id).0 e),
                    subst (λ (x : PostRow Value). Later x row) same
                        (inr (r.was_open, (omega (arith, r.one_more), r.no_less))),
                  ),
                ),
              )
          | inr e ↦
              let other : a.id ≢ row.id = λ h. absurd (cc ((==_iff a.id row.id).1 h, e)) in
              (
                a,
                (
                  subst (λ (x : List (PostRow Value)). Mem a x) (sym r.replaced)
                      (Mem-swap_other row a posts m other),
                  (refl, inl refl),
                ),
              )
        ];
      }

  pub Command-Follows :
      (id : ℕ) (Guard : PostRow Value → PostRow Value → Type 0)
      (posts posts' : List (PostRow Value)) (row : PostRow Value)
      → Distinct post_id_of posts
      → Command id Guard posts row posts'
      → Follows posts posts'
  Command-Follows id Guard posts posts' row d (inl replay) =
      subst (λ (x : List (PostRow Value)). Follows posts x) (sym replay.unchanged)
        (Follows-refl posts)
  Command-Follows id Guard posts posts' row d (inr r) =
      Replaced-Follows id Guard posts posts' row d r

  ends_transact :
      {A : Type 0} (R : A → List (PostRow Value) → Type 0) (P : List (PostRow Value) → Type 0)
      (db : Store Value) (r : Result PublisherRepositoryError (A × Store Value))
      → P db.posts
      → ((a : A) (posts' : List (PostRow Value)) → R a posts' → P posts')
      → Ends R r
      → P (committed db r).1.posts
  unfolding Ends
  ends_transact R P db (ok (a, db')) same f h = f a db'.posts h
  ends_transact R P db (err e) same f h = same

  -- What holds of the posts before a transaction, and of those that it ends with, holds after it.
  pub transact_rule :
      {A : Type 0} (R : A → List (PostRow Value) → Type 0) (P : List (PostRow Value) → Type 0)
      (m : Tx Value A) (db : Store Value)
      → From db.posts m R
      → P db.posts
      → ((a : A) (posts' : List (PostRow Value)) → R a posts' → P posts')
      → P (transact m db).1.posts
  unfolding From
  transact_rule R P m db h same f = ends_transact R P db (m db) same f (h db refl)

  pub insert_post-Follows :
      (row : PostRow Value) (key : List ℕ) (posts : List (PostRow Value))
      → IsPost row
      → From posts (insert_post row key) (λ o posts'. Follows posts posts')
  unfolding From Ends insert_post
  insert_post-Follows row key posts valid db e =
      elim (Bool-cases (exists_where (has_request_key key) db.posts)) [
        | inl taken ↦
            rw (taken, insert_post, Ends)
              (subst (λ x. Follows x db.posts) e (Follows-refl db.posts))
        | inr free ↦
            elim (Bool-cases
              (exists_where (λ (other : PostRow Value). other.id == row.id) db.posts)) [
                | inl taken ↦ rw (free, taken, insert_post, Ends) tt
                | inr new ↦
                    rw (free, new, insert_post, Ends)
                      (subst (λ x. Follows x (db.posts ++ row ∷ [])) e
                        (record {
                          keeps = λ v. (
                            All-append IsPost db.posts (row ∷ []) v.0 (valid, tt),
                            Distinct-append post_id_of db.posts row
                                (fresh_key post_id_of row.id db.posts new) v.1,
                          );
                          later =
                              λ a m. (a, (Mem-append a db.posts (row ∷ []) m, (refl, inl refl)));
                        }))
              ]
      ]
