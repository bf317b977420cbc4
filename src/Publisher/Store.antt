-- ===== src/Publisher/Store.antt =====
-- The tables that the publisher's transactions read and write, and the transactions: a statement that
-- fails ends its transaction, and a transaction that ends so leaves the tables as they were. Rows stay locked to
-- its end, so nothing else changes between its statements.
pub mod Runs
pub mod Still
pub mod Swaps
use sooqa.Prelude.{
  ℕ, ◌-◌, ◌^◌, String, Bool, false, ◌&&◌, not, leb, ◌==◌, if◌then◌else◌, List, Option, none, some,
  Result, ok, err, fail_if,
}
use sooqa.Prelude.Strings.{str_eq}
use sooqa.Prelude.Tables.{update_where, select_where}
use sooqa.Jobs.Rows.{JobRow}
use sooqa.Publisher.Intent.{is_some}
use sooqa.Publisher.Channel.{text_eq}
use sooqa.Publisher.Posts.{
  PostRow, Post, RepeatEvidence, PublisherRepositoryError, into_post, post_missing, channel_missing,
  channel_disabled, media_missing, media_not_ready, repeat_decision_required, database,
}
use sooqa.Publisher.Slots.{ChannelRow, Chrono}

-- The columns of `media` that the publisher reads.
pub record MediaRow : Type 0 where
  pub id : ℕ
  pub storage_state : String

pub record Store (Value : Type 0) : Type 0 where
  pub posts : List (PostRow Value)
  pub jobs : List (JobRow Value)
  pub channels : List ChannelRow
  pub media : List MediaRow

-- What stands outside: chrono, SHA-256, UTF-8, the text of a `Uuid`, the JSON of the job's payload with the
-- `->>` that reads it, and the JSON of the evidence.
pub record Environment (Value Zone : Type 0) : Type 0 where
  pub chrono : Chrono Zone
  pub sha256 : List ℕ → List ℕ
  pub as_bytes : List ℕ → List ℕ
  pub uuid_text : ℕ → String
  pub publish_payload : ℕ → ℕ → Value
  pub payload_post_id : Value → Option String
  pub evidence_from_value : Value → Result String RepeatEvidence

-- The times of a call: `now()`, `clock_timestamp()` and the program's own; and the number that a new id or
-- token gets.
pub record Moment : Type 0 where
  pub now : ℕ
  pub clock : ℕ
  pub local : ℕ
  pub fresh : ℕ

abbrev pub Tx : Type 0 → Type 0 → Type 0
Tx Value A = Store Value → Result PublisherRepositoryError (A × Store Value)

infixl 5 ◌>>=◌ ◌>>◌
abbrev pub ◌>>=◌ : {Value A B : Type 0} → Tx Value A → (A → Tx Value B) → Tx Value B
◌>>=◌ m f db = elim (m db) [ ok (a, db') ↦ f a db' | err e ↦ err e ]

abbrev pub ◌>>◌ : {Value B : Type 0} → Tx Value (Unit {0}) → Tx Value B → Tx Value B
m >> k = m >>= λ _. k

module _ {Value A : Type 0} where
  abbrev pub pure : A → Tx Value A
  pure a db = ok (a, db)

  unfoldable pub lift : Result PublisherRepositoryError A → Tx Value A
  lift (ok a) db = ok (a, db)
  lift (err e) db = err e

  -- A statement that reads.
  abbrev pub gets : (Store Value → A) → Tx Value A
  gets f db = ok (f db, db)

  unfoldable pub or_fail : Option A → PublisherRepositoryError → Tx Value A
  or_fail none e db = err e
  or_fail (some a) e db = ok (a, db)

  -- The result of a transaction and the tables after it: `commit`, or nothing changes.
  abbrev pub committed :
      Store Value
      → Result PublisherRepositoryError (A × Store Value)
      → Result PublisherRepositoryError A × Store Value
  committed db (ok (a, db')) = (ok a, db')
  committed db (err e) = (err e, db)

  -- `begin`, the statements, and `commit`.
  abbrev pub transact : Tx Value A → Store Value → Result PublisherRepositoryError A × Store Value
  transact m db = committed db (m db)

unfoldable pub refuse_if : {Value : Type 0} → Bool → PublisherRepositoryError → Tx Value (Unit {0})
refuse_if bad e db = if bad then err e else ok (tt, db)

-- A row that the transaction returns is read after the commit.
abbrev pub row_read :
    {Value : Type 0}
    → (Value → Result String RepeatEvidence)
    → Result PublisherRepositoryError (PostRow Value)
    → Result PublisherRepositoryError Post
row_read from_value (ok row) = into_post from_value row
row_read from_value (err e) = err e

abbrev pub max_i32 : ℕ
max_i32 = 2 ^ 31 - 1

abbrev pub max_i64 : ℕ
max_i64 = 2 ^ 63 - 1

module _ {Value : Type 0} where
  abbrev pub post_is : ℕ → PostRow Value → Bool
  post_is id row = row.id == id

  -- The columns' types: a number past them is an error of the database.
  abbrev pub fits_columns : PostRow Value → Bool
  fits_columns row = leb row.revision max_i64 && leb row.send_generation max_i32

  -- `UPDATE posts SET … WHERE … RETURNING *`, with `fetch_optional`.
  unfoldable pub update_posts :
      (PostRow Value → Bool) → (PostRow Value → PostRow Value) → Tx Value (Option (PostRow Value))
  update_posts p f db =
      let updated = update_where p f db.posts in
      elim updated.0 [
        | none ↦ ok (none, db)
        | some row ↦
            if fits_columns row
            then ok (some row, record db { posts = updated.1 })
            else err database
      ]

  unfoldable pub post_channel_id : ℕ → Tx Value ℕ
  post_channel_id id db = elim (select_where (post_is id) db.posts) [
    | none ↦ err (post_missing id)
    | some row ↦ ok (row.channel_id, db)
  ]

  unfoldable pub lock_channel : ℕ → Tx Value ChannelRow
  lock_channel id db = or_fail (select_where (λ c. c.id == id) db.channels) (channel_missing id) db

  unfoldable pub lock_post : ℕ → Tx Value (PostRow Value)
  lock_post id db = or_fail (select_where (post_is id) db.posts) (post_missing id) db

  abbrev pub ensure_channel_enabled : ChannelRow → Tx Value (Unit {0})
  ensure_channel_enabled channel = refuse_if (not channel.is_enabled) (channel_disabled channel.id)

  unfoldable pub ensure_media_ready : ℕ → Tx Value (Unit {0})
  ensure_media_ready media_id db = elim (select_where (λ m. m.id == media_id) db.media) [
    | none ↦ err (media_missing media_id)
    | some row ↦
        if str_eq row.storage_state "ready"
        then ok (tt, db)
        else err (media_not_ready media_id row.storage_state)
  ]

  abbrev pub ensure_repeat_decision_resolved : PostRow Value → Tx Value (Unit {0})
  ensure_repeat_decision_resolved current =
      refuse_if (is_some current.repeat_evidence) (repeat_decision_required current.id)

-- `optional.as_deref() == Some(text)`
abbrev pub opt_text_eq : Option (List ℕ) → List ℕ → Bool
opt_text_eq none t = false
opt_text_eq (some s) t = text_eq s t
