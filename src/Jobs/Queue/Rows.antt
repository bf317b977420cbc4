-- ===== src/Jobs/Queue/Rows.antt =====
-- The states that a row of the queue can be in, and how the statements move a row between them.
use sooqa.Prelude.{
  ℕ, ◌+◌, ◌-◌, ◌≤◌, ◌<◌, ◌≡◌, refl, sym, ap, arith, String, Bool, true, false, Bool-cases, ◌⊎◌, inl,
  inr, leb, if◌then◌else◌, none, some, List, max,
}
use sooqa.Prelude.Strings.{str_eq}
use sooqa.Jobs.Kinds.{JobType}
use sooqa.Jobs.Rows.{JobRow, JobLease, JobSettlement, retry, defer, fail}
use sooqa.Jobs.Table.{claimable, start, held_by, extend, succeed}
use sooqa.Jobs.Settlement.{QueueUpdate, settled, queue_parameters, requeue, expired_update}

-- A row whose state is one text does not meet a test for another.
other_state :
    {A : Type 0} (state a b : String) → state ≡ a → str_eq a b ≡ false → str_eq state b ≡ true → A
other_state state a b e different h =
    let same : str_eq a b ≡ str_eq state b = ap (λ s. str_eq s b) (sym e) in
    absurd (cc (same, different, h))

attempts_left :
    (non_consuming : Bool) (n limit : ℕ)
    → 0 < n
    → n ≤ limit
    → (non_consuming ≡ true) ⊎ (n < limit)
    → (if non_consuming then max (n - 1) 0 else n) < limit
attempts_left true n limit hn hl h = omega arith
attempts_left false n limit hn hl (inl e) = absurd (cc e)
attempts_left false n limit hn hl (inr h) = h

module _ {Value : Type 0} where
  -- A row that waits holds no lease, and has an attempt left.
  pub record IsQueued (row : JobRow Value) : Type 0 where
    pub state_queued : row.state ≡ "queued"
    pub no_token : row.lease_token ≡ none
    pub no_owner : row.lease_owner ≡ none
    pub no_expiry : row.lease_expires_at ≡ none
    pub no_heartbeat : row.last_heartbeat_at ≡ none
    pub not_completed : row.completed_at ≡ none
    pub attempt_left : row.attempt_count < row.max_attempts

  -- A row that runs has all of its lease, and has used an attempt.
  pub record IsHeld (row : JobRow Value) : Type 0 where
    pub state_running : row.state ≡ "running"
    pub token : (t : ℕ) × (row.lease_token ≡ some t)
    pub owner : (t : String) × (row.lease_owner ≡ some t)
    pub expiry : (t : ℕ) × (row.lease_expires_at ≡ some t)
    pub heartbeat : (t : ℕ) × (row.last_heartbeat_at ≡ some t)
    pub not_completed : row.completed_at ≡ none
    pub attempt_used : 0 < row.attempt_count
    pub within_attempts : row.attempt_count ≤ row.max_attempts

  -- A row that ended holds no lease, and its end has a time.
  pub record IsDone (row : JobRow Value) : Type 0 where
    pub state_done : (row.state ≡ "succeeded") ⊎ (row.state ≡ "failed")
    pub no_token : row.lease_token ≡ none
    pub no_owner : row.lease_owner ≡ none
    pub no_expiry : row.lease_expires_at ≡ none
    pub no_heartbeat : row.last_heartbeat_at ≡ none
    pub completed : (t : ℕ) × (row.completed_at ≡ some t)
    pub within_attempts : row.attempt_count ≤ row.max_attempts

  abbrev pub RowValid : JobRow Value → Type 0
  RowValid row = IsQueued row ⊎ (IsHeld row ⊎ IsDone row)

  pub RowValid-IsHeld :
      (row : JobRow Value) → RowValid row → str_eq row.state "running" ≡ true → IsHeld row
  RowValid-IsHeld row (inl q) h = other_state row.state "queued" "running" q.state_queued refl h
  RowValid-IsHeld row (inr (inl r)) h = r
  RowValid-IsHeld row (inr (inr d)) h = elim d.state_done [
    | inl e ↦ other_state row.state "succeeded" "running" e refl h
    | inr e ↦ other_state row.state "failed" "running" e refl h
  ]

  pub RowValid-IsQueued :
      (row : JobRow Value) → RowValid row → str_eq row.state "queued" ≡ true → IsQueued row
  RowValid-IsQueued row (inl q) h = q
  RowValid-IsQueued row (inr (inl r)) h =
      other_state row.state "running" "queued" r.state_running refl h
  RowValid-IsQueued row (inr (inr d)) h = elim d.state_done [
    | inl e ↦ other_state row.state "succeeded" "queued" e refl h
    | inr e ↦ other_state row.state "failed" "queued" e refl h
  ]

  pub claimable_parts :
      (now : ℕ) (capabilities : List JobType) (row : JobRow Value)
      → claimable now capabilities row ≡ true
      → (str_eq row.state "queued" ≡ true) × (row.attempt_count < row.max_attempts)
  claimable_parts now capabilities row h = ground arith

  pub start-IsHeld :
      (now fresh duration : ℕ) (worker : String) (row : JobRow Value)
      → IsQueued row
      → IsHeld (start now fresh worker duration row)
  start-IsHeld now fresh duration worker row q = record {
    state_running = refl;
    token = (fresh, refl);
    owner = (worker, refl);
    expiry = (now + duration, refl);
    heartbeat = (now, refl);
    not_completed = q.not_completed;
    attempt_used = omega arith;
    within_attempts = omega (arith, q.attempt_left);
  }

  pub held_by-running :
      (now : ℕ) (l : JobLease) (row : JobRow Value)
      → held_by now l row ≡ true
      → str_eq row.state "running" ≡ true
  held_by-running now l row h = ground arith

  pub extend-IsHeld :
      (now duration : ℕ) (row : JobRow Value) → IsHeld row → IsHeld (extend now duration row)
  extend-IsHeld now duration row r = record {
    state_running = r.state_running;
    token = r.token;
    owner = r.owner;
    expiry = (now + duration, refl);
    heartbeat = (now, refl);
    not_completed = r.not_completed;
    attempt_used = r.attempt_used;
    within_attempts = r.within_attempts;
  }

  pub succeed-IsDone : (now : ℕ) (row : JobRow Value) → IsHeld row → IsDone (succeed now row)
  succeed-IsDone now row r = record {
    state_done = inl refl;
    no_token = refl;
    no_owner = refl;
    no_expiry = refl;
    no_heartbeat = refl;
    completed = (now, refl);
    within_attempts = r.within_attempts;
  }

  -- An update that is right for a row that runs.
  unfoldable pub Settles : JobRow Value → QueueUpdate → Type 0
  Settles row u =
      ((u.terminal ≡ true) × (u.state ≡ "failed") × (u.non_consuming ≡ false))
      ⊎ ((u.terminal ≡ false)
          × (u.state ≡ "queued")
          × ((u.non_consuming ≡ true) ⊎ (row.attempt_count < row.max_attempts)))

  requeue-Settles :
      (row : JobRow Value) (run_at : ℕ) (class message : String) (non_consuming : Bool)
      → Settles row (requeue row run_at class message non_consuming)
  unfolding Settles
  requeue-Settles row run_at class message true = inr (refl, refl, inl refl)
  requeue-Settles row run_at class message false =
      elim (Bool-cases (leb row.max_attempts row.attempt_count)) [
        | inl e ↦ rw e (inl (refl, refl, refl))
        | inr e ↦ rw e (inr (refl, refl, inr (ground arith)))
      ]

  pub queue_parameters-Settles :
      (row : JobRow Value) (s : JobSettlement) → Settles row (queue_parameters row s)
  unfolding queue_parameters Settles
  queue_parameters-Settles row (retry t c m n) = requeue-Settles row t c m n
  queue_parameters-Settles row (defer t c m n) = requeue-Settles row t c m n
  queue_parameters-Settles row (fail c m) = inl (refl, refl, refl)

  pub expired_update-Settles : (now : ℕ) (row : JobRow Value) → Settles row (expired_update now row)
  unfolding Settles
  expired_update-Settles now row = elim (Bool-cases (leb row.max_attempts row.attempt_count)) [
    | inl e ↦ rw e (inl (refl, refl, refl))
    | inr e ↦ rw e (inr (refl, refl, inr (ground arith)))
  ]

  pub settled-RowValid :
      (now : ℕ) (u : QueueUpdate) (row : JobRow Value)
      → IsHeld row
      → Settles row u
      → RowValid (settled now u row)
  unfolding Settles
  settled-RowValid now u row r (inl (t, s, c)) = inr (
      inr (record {
        state_done = inr s;
        no_token = refl;
        no_owner = refl;
        no_expiry = refl;
        no_heartbeat = refl;
        completed = (now, rw t refl);
        within_attempts = rw c r.within_attempts;
      }))
  settled-RowValid now u row r (inr (t, s, c)) = inl (record {
    state_queued = s;
    no_token = refl;
    no_owner = refl;
    no_expiry = refl;
    no_heartbeat = refl;
    not_completed = rw t refl;
    attempt_left =
        attempts_left u.non_consuming row.attempt_count row.max_attempts r.attempt_used
          r.within_attempts c;
  })
