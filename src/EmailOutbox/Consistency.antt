-- ===== src/EmailOutbox/Consistency.antt =====
-- What the fields of a record say together, and that every tick of the worker keeps it so.
use nest_base.Base.{
  ℕ, ◌+◌, ◌≤◌, ◌<◌, String, Bool, true, false, ◌≡◌, refl, List, [], ◌∷◌, arith, All, is_some,
  Option-cases, inl, inr,
}
use nest_base.Base.Table.{All-update_many}
use nest_base.EmailOutbox.Planner.{
  Status, pending, sent, dead_letter, cancelled, RetryConfig, RetryPlan, throws, terminal,
  next_attempt_at, ErrorKind, plan_email_retry,
}
use nest_base.EmailOutbox.Storage.{
  EmailOutboxRecord, claim, mark_sent, mark_dead_letter, record_transient_failure, mark_retry,
  mark_cancelled, list_dispatchable, claimable, claimed_row, has_id, sent_row, dead_row, failed_row,
  retryable, retried_row, cancelled_row,
}
use nest_base.EmailOutbox.Worker.{
  Attempt, RawError, EmailOutboxRunResult, Tick, goes_on, rejects, classify_error_kind,
  write_failure, fail, deliver, process_candidate, process_candidates, run_once,
}

module _ {P : Type 0} (config : RetryConfig) where
  -- A pending record has attempts left, a sent one says when, a dead letter says when and why, and
  -- only pending records are claimed.
  abbrev Fits : Status → EmailOutboxRecord P → Type 0
  Fits pending r = r.attempt_count < config.max_attempts
  Fits sent r = (is_some r.succeeded_at ≡ true) × (is_some r.claimed_at ≡ false)
  Fits dead_letter r =
      (is_some r.failed_at ≡ true) × (is_some r.last_error ≡ true) × (is_some r.claimed_at ≡ false)
  Fits cancelled r = is_some r.claimed_at ≡ false

  abbrev pub IsConsistent : EmailOutboxRecord P → Type 0
  IsConsistent r = Fits r.status r

  module _ (id : String) (rows : List (EmailOutboxRecord P)) (h : All IsConsistent rows) where
    claim-IsConsistent : (t : ℕ) → All IsConsistent (claim id t rows).1
    unfolding claim
    claim-IsConsistent t =
        All-update_many (claimable id t) (claimed_row t) IsConsistent (λ r e k. ground arith) rows h

    mark_sent-IsConsistent : (t : ℕ) → All IsConsistent (mark_sent id t rows).1
    unfolding mark_sent
    mark_sent-IsConsistent t =
        All-update_many (has_id id) (sent_row t) IsConsistent (λ r e k. (refl, refl)) rows h

    mark_dead_letter-IsConsistent :
        (t : ℕ) (error : String) → All IsConsistent (mark_dead_letter id t error rows).1
    unfolding mark_dead_letter
    mark_dead_letter-IsConsistent t error =
        All-update_many (has_id id) (dead_row t error) IsConsistent (λ r e k. (refl, refl, refl))
          rows h

    record_transient_failure-IsConsistent :
        (n t : ℕ) (error : String)
        → n < config.max_attempts
        → All IsConsistent (record_transient_failure id n t error rows).1
    unfolding record_transient_failure
    record_transient_failure-IsConsistent n t error le =
        All-update_many (has_id id) (failed_row n t error) IsConsistent (λ r e k. ground arith) rows
          h

    -- The admin's two actions keep every record consistent, if at least one attempt is allowed.
    mark_retry-IsConsistent :
        (t : ℕ) → 1 ≤ config.max_attempts → All IsConsistent (mark_retry id t rows).1
    unfolding mark_retry
    mark_retry-IsConsistent t le =
        All-update_many (retryable id) (retried_row t) IsConsistent (λ r e k. le) rows h

    mark_cancelled-IsConsistent : (t : ℕ) → All IsConsistent (mark_cancelled id t rows).1
    unfolding mark_cancelled
    mark_cancelled-IsConsistent t =
        All-update_many (retryable id) (cancelled_row t) IsConsistent (λ r e k. refl) rows h

  abbrev pub TickAll : Tick P → Type 0
  TickAll (goes_on rows result) = All IsConsistent rows
  TickAll (rejects rows) = All IsConsistent rows

  module _ (a : Attempt) (c : EmailOutboxRecord P) where
    write_failure-IsConsistent :
        (raw : RawError) (plan : RetryPlan) (rows : List (EmailOutboxRecord P))
        (result : EmailOutboxRunResult)
        → ((t : ℕ) → plan ≡ next_attempt_at t → c.attempt_count + 1 < config.max_attempts)
        → All IsConsistent rows
        → TickAll (write_failure config a c raw plan rows result)
    unfolding write_failure
    write_failure-IsConsistent raw throws rows result room h = h
    write_failure-IsConsistent raw terminal rows result room h =
        ground (arith, mark_dead_letter-IsConsistent c.id rows h a.failed_at raw.message)
    write_failure-IsConsistent raw (next_attempt_at t) rows result room h = ground (
      arith,
      record_transient_failure-IsConsistent c.id rows h (c.attempt_count + 1) t raw.message
          (room t refl),
    )

    plan-room :
        (n : ℕ) (kind : ErrorKind) (now t : ℕ)
        → plan_email_retry n kind now config ≡ next_attempt_at t
        → n < config.max_attempts
    unfolding plan_email_retry
    plan-room n kind now t e = ground arith

    fail-IsConsistent :
        (raw : RawError) (rows : List (EmailOutboxRecord P)) (result : EmailOutboxRunResult)
        → All IsConsistent rows
        → TickAll (fail config a c raw rows result)
    unfolding fail
    fail-IsConsistent raw rows result h =
        write_failure-IsConsistent raw _ rows result
          (plan-room (c.attempt_count + 1) (classify_error_kind raw) a.planned_at) h

    deliver-IsConsistent :
        (rows : List (EmailOutboxRecord P)) (result : EmailOutboxRunResult)
        → All IsConsistent rows
        → TickAll (deliver config a c rows result)
    unfolding deliver
    deliver-IsConsistent rows result h = elim (Option-cases a.dispatch_error) [
      | inr (raw, e) ↦ rw (e, deliver) (fail-IsConsistent raw rows result h)
      | inl e ↦ elim (Option-cases a.mark_sent_error) [
        | inr (raw, e') ↦ rw (e, deliver) (rw (e', deliver) (fail-IsConsistent raw rows result h))
        | inl e' ↦ rw (e, deliver) (rw (e', deliver) (mark_sent-IsConsistent c.id rows h a.sent_at))
      ]
    ]

    process_candidate-IsConsistent :
        (rows : List (EmailOutboxRecord P)) (result : EmailOutboxRunResult)
        → All IsConsistent rows
        → TickAll (process_candidate config a c rows result)
    unfolding process_candidate
    process_candidate-IsConsistent rows result h =
        let claimed = claim-IsConsistent c.id rows h a.claimed_at in
        ground (arith, deliver-IsConsistent (claim c.id a.claimed_at rows).1 result claimed)

  process_candidates-IsConsistent :
      (attempts : ℕ → Attempt) (n : ℕ) (cs rows : List (EmailOutboxRecord P))
      (result : EmailOutboxRunResult)
      → All IsConsistent rows
      → TickAll (process_candidates config attempts n cs rows result)
  unfolding process_candidates
  process_candidates-IsConsistent attempts n [] rows result h = h
  process_candidates-IsConsistent attempts n (c ∷ cs) rows result h =
      go (process_candidate config (attempts n) c rows result)
        (process_candidate-IsConsistent (attempts n) c rows result h)
        (λ rows' result'. process_candidates-IsConsistent attempts (n + 1) cs rows' result')
    where
      go :
          (tick : Tick P)
          → TickAll tick
          → ((rows' : List (EmailOutboxRecord P)) (result' : EmailOutboxRunResult)
              → All IsConsistent rows'
              → TickAll (process_candidates config attempts (n + 1) cs rows' result'))
          → TickAll (elim tick [
            | goes_on rows' result' ↦ process_candidates config attempts (n + 1) cs rows' result'
            | rejects rows' ↦ rejects rows'
          ])
      go (goes_on rows' result') k ih = ih rows' result' k
      go (rejects rows') k ih = k

  -- Whatever the driver, the clock and the connection do, a tick of the worker that starts on
  -- consistent records leaves consistent records, also where it rejects in the middle.
  pub run_once-IsConsistent :
      (now batch_size : ℕ) (list_fails : Bool) (attempts : ℕ → Attempt)
      (rows : List (EmailOutboxRecord P))
      → All IsConsistent rows
      → TickAll (run_once config now batch_size list_fails attempts rows)
  unfolding run_once
  run_once-IsConsistent now batch_size true attempts rows h = h
  run_once-IsConsistent now batch_size false attempts rows h =
      process_candidates-IsConsistent attempts 0 (list_dispatchable now batch_size rows) rows _ h
