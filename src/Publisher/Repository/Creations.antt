-- ===== src/Publisher/Repository/Creations.antt =====
-- A new post is a draft that the table keeps, and no other post changes.
use sooqa.Prelude.{ℕ, refl, sym, subst, inl, inr, List, none, some}
use sooqa.Publisher.Posts.{PostRow}
use sooqa.Publisher.Posts.Valid.{IsPost}
use sooqa.Publisher.Store.{Moment}
use sooqa.Publisher.Store.Runs.{From, Still, weaken, bind-From, lifted, still, returned}
use sooqa.Publisher.Creation.{NewPost, create_row, draft_row}
use sooqa.Publisher.Creation.Still.{validate_media_and_channel-Still, existing_post-Still}
use sooqa.Publisher.Repository.Steps.{Follows, insert_post-Follows}

module _ {Value : Type 0} where
  draft_row-IsPost :
      (moment : Moment) (post : NewPost) (request_key request_hash : List ℕ)
      → IsPost {Value = Value} (draft_row moment post request_key request_hash)
  draft_row-IsPost moment post request_key request_hash = record {
    fence = inr (refl, (refl, refl));
    message = inl refl;
    slot = inl refl;
    reviewed = inl refl;
  }

  pub create_row-Follows :
      (moment : Moment) (post : NewPost) (value request_hash : List ℕ)
      (posts : List (PostRow Value))
      → From posts (create_row moment post value request_hash) (λ done posts'. Follows posts posts')
  unfolding create_row Still
  create_row-Follows moment post value request_hash posts = lifted _ _ _ _ λ _ _.
      lifted _ _ _ _ λ request_key _.
        still _ _ _ _ (validate_media_and_channel-Still Value post.media_id post.channel_id) λ _.
          bind-From _ _ _ _ _
            (insert_post-Follows (draft_row moment post request_key request_hash) request_key posts
              (draft_row-IsPost moment post request_key request_hash))
            elim [
              | some row ↦ λ posts' f. returned _ _ _ f
              | none ↦ λ posts' f.
                  weaken _ _ _ _ (existing_post-Still Value request_key request_hash posts')
                    λ done posts'' same.
                      subst (λ (x : List (PostRow Value)). Follows posts x) (sym same) f
            ]
