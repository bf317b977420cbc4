-- ===== src/Publisher/Store/Swaps.antt =====
-- An update of one post: the row that is returned stands in the table in the place of the row that was
-- locked, and every other row stays.
use sooqa.Prelude.{
  ℕ, ◌≡◌, ◌≢◌, refl, sym, subst, ap, ◌∙◌, Bool, true, false, Bool-cases, inl, inr, ◌==◌, ==_iff,
  List, ◌∷◌, Option, none, some, Option-cases,
}
use sooqa.Prelude.Tables.{update_where}
use sooqa.Prelude.Tables.Rewrites.{
  Mem, here, there, Distinct, All-Mem, Distinct-Mem, update_where-some,
}
use sooqa.Publisher.Posts.{PostRow, PublisherRepositoryError}
use sooqa.Publisher.Store.{Store, ◌>>=◌, or_fail, post_is, fits_columns, update_posts}
use sooqa.Publisher.Store.Runs.{From, Ends, bind-From}

module _ {Value : Type 0} where
  abbrev pub post_id_of : PostRow Value → ℕ
  post_id_of row = row.id

  -- The table with one row in the place of the one that has its id.
  unfoldable pub swap : PostRow Value → List (PostRow Value) → List (PostRow Value)
  swap row rows = (update_where (post_is row.id) (λ _. row) rows).1

  pub update_where-swap :
      (current : PostRow Value) (p : PostRow Value → Bool) (f : PostRow Value → PostRow Value)
      (rows : List (PostRow Value))
      → Distinct post_id_of rows
      → Mem current rows
      → p current ≡ true
      → ((b : PostRow Value) → p b ≡ true → b.id ≡ current.id)
      → (f current).id ≡ current.id
      → (update_where p f rows).1 ≡ swap (f current) rows
  unfolding update_where swap
  update_where-swap current p f _ d (here {rows}) h only keep =
      let own : (current.id == (f current).id) ≡ true =
        (==_iff current.id (f current).id).1 (sym keep) in
      rw (h, own, swap) refl
  update_where-swap current p f _ d (there {b} {rows} m) h only keep =
      let differ : b.id ≢ current.id =
        λ e. All-Mem (λ other. other.id ≢ b.id) current rows m d.0 (sym e) in
      let not_met : p b ≡ false = elim (Bool-cases (p b)) [
        | inl e ↦ absurd (differ (only b e))
        | inr e ↦ e
      ] in
      let other : (b.id == (f current).id) ≡ false = elim (Bool-cases (b.id == (f current).id)) [
        | inl e ↦ absurd (differ ((==_iff b.id (f current).id).0 e ∙ keep))
        | inr e ↦ e
      ] in
      rw (not_met, other, swap)
        (ap (λ xs. b ∷ xs) (update_where-swap current p f rows d.1 m h only keep))

  -- What an update that is asked for its row gives.
  abbrev pub Updated :
      PostRow Value
      → (PostRow Value → Bool)
      → (PostRow Value → PostRow Value)
      → List (PostRow Value)
      → PostRow Value
      → List (PostRow Value)
      → Type 0
  Updated current p f posts row posts' =
      (row ≡ f current) × (p current ≡ true) × (posts' ≡ swap (f current) posts)

  -- Without a row that meets the condition, nothing changes.
  abbrev pub Asked :
      PostRow Value
      → (PostRow Value → Bool)
      → (PostRow Value → PostRow Value)
      → List (PostRow Value)
      → Option (PostRow Value)
      → List (PostRow Value)
      → Type 0
  Asked current p f posts none posts' = posts' ≡ posts
  Asked current p f posts (some row) posts' = Updated current p f posts row posts'

  Asked-at :
      (current : PostRow Value) (p : PostRow Value → Bool) (f : PostRow Value → PostRow Value)
      (db : Store Value)
      → ((b : PostRow Value) → p b ≡ true → b.id ≡ current.id)
      → (f current).id ≡ current.id
      → Distinct post_id_of db.posts
      → Mem current db.posts
      → Ends (Asked current p f db.posts) (update_posts p f db)
  unfolding update_posts Ends
  Asked-at current p f db only keep d m = elim (Option-cases (update_where p f db.posts).0) [
    | inl e ↦ rw (e, update_posts, Ends) refl
    | inr (row, e) ↦ elim (Bool-cases (fits_columns row)) [
      | inr large ↦ rw (e, large, update_posts, Ends) tt
      | inl fits ↦
          let (a, ma, ha, same) = update_where-some p f db.posts row e in
          let own : a ≡ current = Distinct-Mem post_id_of a current db.posts d ma m (only a ha) in
          let met : p current ≡ true = subst (λ y. p y ≡ true) own ha in
          rw (e, fits, update_posts, Ends)
            (same ∙ ap f own, met, update_where-swap current p f db.posts d m met only keep)
    ]
  ]

  pub asked :
      {posts : List (PostRow Value)} (current : PostRow Value) (p : PostRow Value → Bool)
      (f : PostRow Value → PostRow Value)
      → ((b : PostRow Value) → p b ≡ true → b.id ≡ current.id)
      → (f current).id ≡ current.id
      → Distinct post_id_of posts
      → Mem current posts
      → From posts (update_posts p f) (Asked current p f posts)
  unfolding From Ends
  asked current p f only keep d m db e =
      subst (λ (posts : List (PostRow Value)). Ends (Asked current p f posts) (update_posts p f db))
        e
        (Asked-at current p f db only keep
          (subst (λ (rows : List (PostRow Value)). Distinct post_id_of rows) (sym e) d)
          (subst (λ (rows : List (PostRow Value)). Mem current rows) (sym e) m))

  or_fail-Asked :
      (current : PostRow Value) (p : PostRow Value → Bool) (f : PostRow Value → PostRow Value)
      (x : PublisherRepositoryError) (posts : List (PostRow Value)) (u : Option (PostRow Value))
      (posts' : List (PostRow Value))
      → Asked current p f posts u posts'
      → From posts' (or_fail u x) (Updated current p f posts)
  unfolding From Ends or_fail
  or_fail-Asked current p f x posts none posts' a db e = tt
  or_fail-Asked current p f x posts (some row) posts' (same, met, swapped) db e =
      (same, met, e ∙ swapped)

  pub updated :
      {posts : List (PostRow Value)} (current : PostRow Value) (p : PostRow Value → Bool)
      (f : PostRow Value → PostRow Value) (x : PublisherRepositoryError)
      → ((b : PostRow Value) → p b ≡ true → b.id ≡ current.id)
      → (f current).id ≡ current.id
      → Distinct post_id_of posts
      → Mem current posts
      → From posts (update_posts p f >>= λ u. or_fail u x) (Updated current p f posts)
  updated {posts} current p f x only keep d m =
      bind-From posts _ _ (Asked current p f posts) _ (asked current p f only keep d m)
        (or_fail-Asked current p f x posts)
