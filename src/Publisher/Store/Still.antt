-- ===== src/Publisher/Store/Still.antt =====
-- The statements that read, and those on other tables, leave the posts as they are.
use sooqa.Prelude.{
  ℕ, ◌≡◌, Bool, true, false, Bool-cases, inl, inr, Option, none, some, Option-cases, Result, ok,
  err, ◌==◌,
}
use sooqa.Prelude.Strings.{str_eq}
use sooqa.Prelude.Tables.{select_where}
use sooqa.Publisher.Posts.{PublisherRepositoryError}
use sooqa.Publisher.Store.{
  Store, MediaRow, Tx, ◌>>=◌, pure, lift, refuse_if, ◌>>◌, gets, or_fail, post_is, post_channel_id,
  lock_channel, ensure_media_ready,
}
use sooqa.Publisher.Store.Runs.{Ends, From, Still, still}

module _ {Value A : Type 0} where
  pub gets-Still : (f : Store Value → A) → Still (gets f)
  unfolding Still From Ends
  gets-Still f posts db e = e

module _ (Value : Type 0) {A : Type 0} where
  pub pure-Still : (a : A) → Still {Value = Value} (pure a)
  unfolding Still From Ends
  pure-Still a posts db e = e

  pub lift-Still : (r : Result PublisherRepositoryError A) → Still {Value = Value} (lift r)
  unfolding Still From Ends lift
  lift-Still (ok a) posts db e = e
  lift-Still (err x) posts db e = tt

  pub or_fail-Still :
      (o : Option A) (x : PublisherRepositoryError) → Still {Value = Value} (or_fail o x)
  unfolding Still From Ends or_fail
  or_fail-Still none x posts db e = tt
  or_fail-Still (some a) x posts db e = e

module _ {Value A B : Type 0} where
  pub >>=-Still :
      (m : Tx Value A) (f : A → Tx Value B) → Still m → ((a : A) → Still (f a)) → Still (m >>= f)
  unfolding Still From Ends
  >>=-Still m f first next posts =
      still posts m f (λ a posts'. posts' ≡ posts) first λ a. next a posts

module _ {Value A : Type 0} where
  pub refused-Still :
      (bad : Bool) (x : PublisherRepositoryError) (k : Tx Value A)
      → Still k
      → Still (refuse_if bad x >> k)
  unfolding Still From Ends refuse_if
  refused-Still true x k h posts db e = tt
  refused-Still false x k h posts db e = h posts db e

module _ (Value : Type 0) where
  pub post_channel_id-Still : (id : ℕ) → Still {Value = Value} (post_channel_id id)
  unfolding post_channel_id Still From Ends
  post_channel_id-Still id posts db e = elim (Option-cases (select_where (post_is id) db.posts)) [
    | inl none_found ↦ rw (none_found, post_channel_id, Ends) tt
    | inr (row, found) ↦ rw (found, post_channel_id, Ends) e
  ]

  pub lock_channel-Still : (id : ℕ) → Still {Value = Value} (lock_channel id)
  unfolding lock_channel Still From Ends
  lock_channel-Still id posts db e =
      or_fail-Still Value (select_where (λ c. c.id == id) db.channels) _ posts db e

  pub ensure_media_ready-Still : (id : ℕ) → Still {Value = Value} (ensure_media_ready id)
  unfolding ensure_media_ready Still From Ends
  ensure_media_ready-Still id posts db e =
      elim (Option-cases (select_where (λ (m : MediaRow). m.id == id) db.media)) [
        | inl none_found ↦ rw (none_found, ensure_media_ready, Ends) tt
        | inr (row, found) ↦ elim (Bool-cases (str_eq row.storage_state "ready")) [
          | inl ready ↦ rw (found, ready, ensure_media_ready, Ends) e
          | inr not_ready ↦ rw (found, not_ready, ensure_media_ready, Ends) tt
        ]
      ]

  pub refuse_if-Still :
      (bad : Bool) (x : PublisherRepositoryError) → Still {Value = Value} (refuse_if bad x)
  unfolding Still From Ends refuse_if
  refuse_if-Still true x posts db e = tt
  refuse_if-Still false x posts db e = e
