-- ===== src/Publisher/Posts/Names.antt =====
-- The names of the states of a post are read back, and nothing else is.
use sooqa.Prelude.{String, ok, ◌≡◌, ◌↔◌, refl, ap, ◌∙◌}
use sooqa.Prelude.Strings.{read_arm}
use sooqa.Publisher.Posts.{
  PostState, as_str, post_state_try_from, draft, queued, sending, published, unknown, failed,
  cancelled,
}

state_read : (s : PostState) → post_state_try_from (as_str s) ≡ ok s
unfolding post_state_try_from as_str
state_read draft = refl
state_read queued = refl
state_read sending = refl
state_read published = refl
state_read unknown = refl
state_read failed = refl
state_read cancelled = refl

state_only : (value : String) (s : PostState) → post_state_try_from value ≡ ok s → value ≡ as_str s
unfolding post_state_try_from as_str
state_only value s = read_arm as_str value _ draft _ s refl (
    read_arm as_str value _ queued _ s refl (
      read_arm as_str value _ sending _ s refl (
        read_arm as_str value _ published _ s refl (
          read_arm as_str value _ unknown _ s refl (
            read_arm as_str value _ failed _ s refl
              (read_arm as_str value _ cancelled _ s refl (λ h. absurd (cc h))))))))

-- A text is read as the state of a post exactly when it is the name of that state.
pub post_state_try_from_iff :
    (value : String) (s : PostState) → (post_state_try_from value ≡ ok s) ↔ (value ≡ as_str s)
post_state_try_from_iff value s = (state_only value s, λ e. ap post_state_try_from e ∙ state_read s)
