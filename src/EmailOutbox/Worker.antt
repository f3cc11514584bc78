-- ===== src/EmailOutbox/Worker.antt =====
-- `EmailOutboxWorker.runOnce` of core/email/email-outbox.ts. What the driver, the clock and the
-- connection do while one candidate is handled is an `Attempt`. A statement that throws has had no
-- effect: a connection that is lost after the commit is not modelled.
use nest_base.Base.{ℕ, ◌+◌, String, Bool, Option, none, some, List, [], ◌∷◌, str_eq, if◌then◌else◌}
use nest_base.EmailOutbox.Planner.{
  ErrorKind, transient, permanent, RetryConfig, RetryPlan, throws, terminal, next_attempt_at,
  plan_email_retry,
}
use nest_base.EmailOutbox.Storage.{
  EmailOutboxRecord, list_dispatchable, claim, mark_sent, mark_dead_letter,
  record_transient_failure,
}

-- A thrown value: its `kind` property, if it is an object with a text there, and its message.
pub record RawError : Type 0 where
  pub kind : Option String
  pub message : String

unfoldable pub classify_error_kind : RawError → ErrorKind
classify_error_kind raw = elim raw.kind [
  | none ↦ transient
  | some k ↦ if str_eq k "permanent" then permanent else transient
]

pub record Attempt : Type 0 where
  pub claimed_at : ℕ
  -- `claim` may throw
  pub claim_fails : Bool
  -- what `driver.dispatch` throws
  pub dispatch_error : Option RawError
  pub sent_at : ℕ
  -- what `markSent` throws, after a dispatch that succeeded
  pub mark_sent_error : Option RawError
  pub planned_at : ℕ
  pub failed_at : ℕ
  -- the write in the catch block may throw, which ends the tick
  pub record_fails : Bool

pub record EmailOutboxRunResult : Type 0 where
  pub sent : ℕ
  pub retry : ℕ
  pub dead_letter : ℕ

-- The table, and the counters so far or the rejection of `runOnce`.
pub data Tick (P : Type 0) : Type 0 where
  goes_on : List (EmailOutboxRecord P) → EmailOutboxRunResult → Tick P
  rejects : List (EmailOutboxRecord P) → Tick P

module _ {P : Type 0} (config : RetryConfig) where
  -- The catch block, from the plan on.
  unfoldable pub write_failure :
      Attempt
      → EmailOutboxRecord P
      → RawError
      → RetryPlan
      → List (EmailOutboxRecord P)
      → EmailOutboxRunResult
      → Tick P
  write_failure a c raw throws rows result = rejects rows
  write_failure a c raw terminal rows result =
      if a.record_fails
      then rejects rows
      else goes_on (mark_dead_letter c.id a.failed_at raw.message rows).1
          (record result { dead_letter = result.dead_letter + 1 })
  write_failure a c raw (next_attempt_at at) rows result =
      if a.record_fails
      then rejects rows
      else goes_on (record_transient_failure c.id (c.attempt_count + 1) at raw.message rows).1
          (record result { retry = result.retry + 1 })

  unfoldable pub fail :
      Attempt
      → EmailOutboxRecord P
      → RawError
      → List (EmailOutboxRecord P)
      → EmailOutboxRunResult
      → Tick P
  unfolding write_failure
  fail a c raw rows result =
      write_failure a c raw
        (plan_email_retry (c.attempt_count + 1) (classify_error_kind raw) a.planned_at config) rows
        result

  -- the try block: `dispatch`, then `markSent`
  unfoldable pub deliver :
      Attempt → EmailOutboxRecord P → List (EmailOutboxRecord P) → EmailOutboxRunResult → Tick P
  unfolding fail
  deliver a c rows result = elim a.dispatch_error [
    | some raw ↦ fail a c raw rows result
    | none ↦ elim a.mark_sent_error [
      | some raw ↦ fail a c raw rows result
      | none ↦ goes_on (mark_sent c.id a.sent_at rows).1 (record result { sent = result.sent + 1 })
    ]
  ]

  unfoldable pub process_candidate :
      Attempt → EmailOutboxRecord P → List (EmailOutboxRecord P) → EmailOutboxRunResult → Tick P
  unfolding deliver
  process_candidate a c rows result =
      if a.claim_fails
      then goes_on rows result
      else let (claimed, rows') = claim c.id a.claimed_at rows in
        if claimed then deliver a c rows' result else goes_on rows' result

  -- the loop over the candidates; `attempts n` is what happens at the n-th
  unfoldable pub process_candidates :
      (attempts : ℕ → Attempt)
      → ℕ
      → List (EmailOutboxRecord P)
      → List (EmailOutboxRecord P)
      → EmailOutboxRunResult
      → Tick P
  unfolding process_candidate
  process_candidates attempts n [] rows result = goes_on rows result
  process_candidates attempts n (c ∷ cs) rows result =
      elim (process_candidate (attempts n) c rows result) [
        | goes_on rows' result' ↦ process_candidates attempts (n + 1) cs rows' result'
        | rejects rows' ↦ rejects rows'
      ]

  unfoldable pub run_once :
      (now batch_size : ℕ)
      → (list_fails : Bool) → (attempts : ℕ → Attempt) → List (EmailOutboxRecord P)
      → Tick P
  unfolding process_candidates
  run_once now batch_size list_fails attempts rows =
      if list_fails
      then rejects rows
      else process_candidates attempts 0 (list_dispatchable now batch_size rows) rows
          (record { sent = 0; retry = 0; dead_letter = 0 })
