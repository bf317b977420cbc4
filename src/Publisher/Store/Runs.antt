-- ===== src/Publisher/Store/Runs.antt =====
-- Rules for transactions: what holds of the posts when one that began at given posts has ended well.
use sooqa.Prelude.{
  ℕ, ◌≡◌, refl, sym, subst, ◌∙◌, Bool, true, false, ==_iff, if◌then◌else◌, List, Option, none, some,
  Result, ok, err,
}
use sooqa.Prelude.Tables.{select_where}
use sooqa.Prelude.Tables.Rewrites.{Mem, select_where-some}
use sooqa.Publisher.Posts.{PostRow, post_missing, PublisherRepositoryError}
use sooqa.Publisher.Store.{
  Store, Tx, ◌>>=◌, ◌>>◌, pure, lift, or_fail, refuse_if, post_is, lock_post,
}

module _ {Value A : Type 0} where
  unfoldable pub Ends :
      (A → List (PostRow Value) → Type 0)
      → Result PublisherRepositoryError (A × Store Value)
      → Type 0
  Ends R (ok (a, db)) = R a db.posts
  Ends R (err e) = Unit

  -- Run from these posts, the transaction fails, or ends with a result and posts as stated.
  unfoldable pub From :
      List (PostRow Value) → Tx Value A → (A → List (PostRow Value) → Type 0) → Type 0
  From posts m R = (db : Store Value) → db.posts ≡ posts → Ends R (m db)

  -- Whatever it does, it does not change the posts.
  unfoldable pub Still : Tx Value A → Type 0
  Still m = (posts : List (PostRow Value)) → From posts m (λ a posts'. posts' ≡ posts)

module _ {Value A B : Type 0} where
  ends_bind :
      (f : A → Tx Value B) (Q : A → List (PostRow Value) → Type 0)
      (R : B → List (PostRow Value) → Type 0)
      (r : Result PublisherRepositoryError (A × Store Value))
      → ((a : A) (posts' : List (PostRow Value)) → Q a posts' → From posts' (f a) R)
      → Ends Q r
      → Ends R (elim r [ ok (a, db') ↦ f a db' | err x ↦ err x ])
  unfolding From Ends Still
  ends_bind f Q R (ok (a, db')) next q = next a db'.posts q db' refl
  ends_bind f Q R (err x) next q = tt

module _ {Value B : Type 0} where
  ends_weaken :
      (Q R : B → List (PostRow Value) → Type 0)
      (r : Result PublisherRepositoryError (B × Store Value))
      → ((b : B) (posts' : List (PostRow Value)) → Q b posts' → R b posts')
      → Ends Q r
      → Ends R r
  unfolding Ends
  ends_weaken Q R (ok (b, db')) imp q = imp b db'.posts q
  ends_weaken Q R (err x) imp q = tt

module _ {Value A B : Type 0} (posts : List (PostRow Value)) where
  pub bind-From :
      (m : Tx Value A) (f : A → Tx Value B) (Q : A → List (PostRow Value) → Type 0)
      (R : B → List (PostRow Value) → Type 0)
      → From posts m Q
      → ((a : A) (posts' : List (PostRow Value)) → Q a posts' → From posts' (f a) R)
      → From posts (m >>= f) R
  unfolding From Ends Still
  bind-From m f Q R first next db e = ends_bind f Q R (m db) next (first db e)

  pub still :
      (m : Tx Value A) (f : A → Tx Value B) (R : B → List (PostRow Value) → Type 0)
      → Still m
      → ((a : A) → From posts (f a) R)
      → From posts (m >>= f) R
  unfolding From Ends Still
  still m f R first next =
      bind-From m f (λ a posts'. posts' ≡ posts) R (first posts)
        λ a posts' same db e. next a db (e ∙ same)

  pub lifted :
      (r : Result PublisherRepositoryError A) (f : A → Tx Value B)
      (R : B → List (PostRow Value) → Type 0)
      → ((a : A) → r ≡ ok a → From posts (f a) R)
      → From posts (lift r >>= f) R
  unfolding From Ends Still lift
  lifted (ok a) f R next db e = next a refl db e
  lifted (err x) f R next db e = tt

module _ {Value B : Type 0} (posts : List (PostRow Value)) where
  pub weaken :
      (m : Tx Value B) (Q R : B → List (PostRow Value) → Type 0)
      → From posts m Q
      → ((b : B) (posts' : List (PostRow Value)) → Q b posts' → R b posts')
      → From posts m R
  unfolding From Ends Still
  weaken m Q R h imp db e = ends_weaken Q R (m db) imp (h db e)

  pub refused :
      (bad : Bool) (x : PublisherRepositoryError) (k : Tx Value B)
      (R : B → List (PostRow Value) → Type 0)
      → (bad ≡ false → From posts k R)
      → From posts (refuse_if bad x >> k) R
  unfolding From Ends Still refuse_if
  refused true x k R next db e = tt
  refused false x k R next db e = next refl db e

  pub returned : (b : B) (R : B → List (PostRow Value) → Type 0) → R b posts → From posts (pure b) R
  unfolding From Ends Still
  returned b R h db e = subst (R b) (sym e) h

  pub branch :
      (c : Bool) (m k : Tx Value B) (R : B → List (PostRow Value) → Type 0)
      → (c ≡ true → From posts m R)
      → (c ≡ false → From posts k R)
      → From posts (if c then m else k) R
  unfolding From Ends Still
  branch true m k R hm hk = hm refl
  branch false m k R hm hk = hk refl

  lock_post-some :
      (id : ℕ) (f : PostRow Value → Tx Value B) (R : B → List (PostRow Value) → Type 0)
      (db : Store Value)
      → db.posts ≡ posts
      → ((current : PostRow Value) → Mem current posts → current.id ≡ id → From posts (f current) R)
      → (found : Option (PostRow Value)) → select_where (post_is id) posts ≡ found
      → Ends R (elim (or_fail found (post_missing id) db) [ ok (a, db') ↦ f a db' | err x ↦ err x ])
  unfolding From Ends Still or_fail
  lock_post-some id f R db e next none h = tt
  lock_post-some id f R db e next (some current) h =
      let found = select_where-some (post_is id) posts current h in
      next current found.0 ((==_iff current.id id).0 found.1) db e

  -- The locked row is a row of the table, and has the id.
  pub locked :
      (id : ℕ) (f : PostRow Value → Tx Value B) (R : B → List (PostRow Value) → Type 0)
      → ((current : PostRow Value) → Mem current posts → current.id ≡ id → From posts (f current) R)
      → From posts (lock_post id >>= f) R
  unfolding lock_post From Ends Still or_fail
  locked id f R next db e = lock_post-some id f R db e next (select_where (post_is id) db.posts) (
      subst
        (λ (x : List (PostRow Value)).
          select_where (post_is id) x ≡ select_where (post_is id) db.posts)
        e refl)
