-- ===== src/EmailOutbox/Backoff.antt =====
-- When a failed mail is tried again.
use nest_base.Base.{ℕ, ◌+◌, ◌≤◌, ◌≡◌, ◌↔◌, ◌⊎◌, arith}
use nest_base.Base.Backoff.{backoff_mono}
use nest_base.EmailOutbox.Planner.{
  ErrorKind, permanent, RetryConfig, terminal, next_attempt_at, plan_email_retry,
}

-- A failed attempt, counted from 1, is the last one exactly when the error is permanent or the
-- count has reached `maxAttempts`.
pub plan_email_retry-terminal_iff :
    (n : ℕ) (kind : ErrorKind) (now : ℕ) (c : RetryConfig)
    → 1 ≤ n
    → (plan_email_retry n kind now c ≡ terminal) ↔ ((kind ≡ permanent) ⊎ (c.max_attempts ≤ n))
unfolding plan_email_retry
plan_email_retry-terminal_iff n kind now c h = ground arith

-- With a factor of at least 1 the waiting time never shrinks from one attempt to a later one, and
-- it never passes `maxDelayMs`.
pub plan_email_retry_mono :
    (n m : ℕ) (kind : ErrorKind) (now : ℕ) (c : RetryConfig) {t u : ℕ}
    → 1 ≤ c.factor
    → n ≤ m
    → plan_email_retry n kind now c ≡ next_attempt_at t
    → plan_email_retry m kind now c ≡ next_attempt_at u
    → (now ≤ t) × (t ≤ u) × (u ≤ now + c.max_delay_ms)
unfolding plan_email_retry
plan_email_retry_mono n m kind now c h le p q =
    ground (arith, backoff_mono c.initial_delay_ms c.factor c.max_delay_ms n m h le)
