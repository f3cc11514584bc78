-- ===== src/EmailOutbox/Counts.antt =====
-- The counters that a tick of the mail worker returns.
use nest_base.Base.{
  ℕ, ◌+◌, ◌≤◌, Bool, true, false, List, [], ◌∷◌, arith, length, Option-cases, inl, inr,
}
use nest_base.EmailOutbox.Planner.{
  RetryConfig, RetryPlan, throws, terminal, next_attempt_at, plan_email_retry,
}
use nest_base.EmailOutbox.Storage.{EmailOutboxRecord, list_dispatchable, claim}
use nest_base.EmailOutbox.Claims.{list_dispatchable-wanted}
use nest_base.EmailOutbox.Worker.{
  Attempt, RawError, EmailOutboxRunResult, Tick, goes_on, rejects, classify_error_kind,
  write_failure, fail, deliver, process_candidate, process_candidates, run_once,
}

abbrev pub total : EmailOutboxRunResult → ℕ
total r = r.sent + r.retry + r.dead_letter

-- The counters of a tick that has not rejected add up to `n` at most.
abbrev pub TickTotal : {P : Type 0} → ℕ → Tick P → Type 0
TickTotal n (goes_on rows result) = total result ≤ n
TickTotal n (rejects rows) = Unit

module _ {P : Type 0} (config : RetryConfig) where
  module _ (a : Attempt) (c : EmailOutboxRecord P) (result : EmailOutboxRunResult) where
    fail-total :
        (raw : RawError) (rows : List (EmailOutboxRecord P))
        → TickTotal (total result + 1) (fail config a c raw rows result)
    unfolding fail
    fail-total raw rows =
        go (plan_email_retry (c.attempt_count + 1) (classify_error_kind raw) a.planned_at config)
      where
        go :
            (plan : RetryPlan)
            → TickTotal (total result + 1) (write_failure config a c raw plan rows result)
        go throws = tt
        go terminal = ground arith
        go (next_attempt_at t) = ground arith

    deliver-total :
        (rows : List (EmailOutboxRecord P))
        → TickTotal (total result + 1) (deliver config a c rows result)
    unfolding deliver
    deliver-total rows = elim (Option-cases a.dispatch_error) [
      | inr (raw, e) ↦ rw (e, deliver) (fail-total raw rows)
      | inl e ↦ elim (Option-cases a.mark_sent_error) [
        | inr (raw, e') ↦ rw (e, deliver) (rw (e', deliver) (fail-total raw rows))
        | inl e' ↦ rw (e, deliver) (rw (e', deliver) (omega arith))
      ]
    ]

    process_candidate-total :
        (rows : List (EmailOutboxRecord P))
        → TickTotal (total result + 1) (process_candidate config a c rows result)
    unfolding process_candidate
    process_candidate-total rows = ground (arith, deliver-total (claim c.id a.claimed_at rows).1)

  TickTotal-mono : (n m : ℕ) (tick : Tick P) → n ≤ m → TickTotal n tick → TickTotal m tick
  TickTotal-mono n m (goes_on rows result) le h = omega arith
  TickTotal-mono n m (rejects rows) le h = tt

  process_candidates-total :
      (attempts : ℕ → Attempt) (n : ℕ) (cs rows : List (EmailOutboxRecord P))
      (result : EmailOutboxRunResult)
      → TickTotal (total result + length cs) (process_candidates config attempts n cs rows result)
  unfolding process_candidates
  process_candidates-total attempts n [] rows result = omega arith
  process_candidates-total attempts n (c ∷ cs) rows result =
      go (process_candidate config (attempts n) c rows result)
        (process_candidate-total (attempts n) c result rows)
        (process_candidates-total attempts (n + 1) cs)
    where
      go :
          (tick : Tick P)
          → TickTotal (total result + 1) tick
          → ((rows' : List (EmailOutboxRecord P)) (result' : EmailOutboxRunResult)
              → TickTotal
                  (total result' + length cs)
                  (process_candidates config attempts (n + 1) cs rows' result'))
          → TickTotal (total result + length (c ∷ cs)) (elim tick [
            | goes_on rows' result' ↦ process_candidates config attempts (n + 1) cs rows' result'
            | rejects rows' ↦ rejects rows'
          ])
      go (goes_on rows' result') k ih =
          TickTotal-mono _ (total result + length (c ∷ cs)) _ (omega arith) (ih rows' result')
      go (rejects rows') k ih = tt

  -- A tick that does not reject counts each candidate at most once: the mails sent, put back and
  -- given up are at most `batchSize` together.
  pub run_once-total :
      (now batch_size : ℕ) (list_fails : Bool) (attempts : ℕ → Attempt)
      (rows : List (EmailOutboxRecord P))
      → TickTotal batch_size (run_once config now batch_size list_fails attempts rows)
  unfolding run_once
  run_once-total now batch_size true attempts rows = tt
  run_once-total now batch_size false attempts rows =
      TickTotal-mono _ batch_size _
        (omega (arith, (list_dispatchable-wanted now batch_size rows).1))
        (process_candidates-total attempts 0 (list_dispatchable now batch_size rows) rows _)
