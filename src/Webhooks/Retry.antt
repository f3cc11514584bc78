-- ===== src/Webhooks/Retry.antt =====
-- core/webhooks/retry-policy.ts. The numbers are exact where JavaScript's are doubles.
use nest_base.Base.{ℕ, ◌*◌, ◌≤◌, ◌≡◌, Bool, Option, none, some, ltb, leb, arith, if◌then◌else◌}
use nest_base.Base.Backoff.{backoff, backoff_mono}

pub record RetryConfig : Type 0 where
  pub initial_delay_ms : ℕ
  pub factor : ℕ
  pub max_delay_ms : ℕ
  pub auto_disable_after : ℕ

abbrev pub webhook_retry_defaults : RetryConfig
webhook_retry_defaults = record {
  initial_delay_ms = 60_000;
  factor = 5;
  max_delay_ms = 2 * 60 * 60 * 1000;
  auto_disable_after = 5;
}

-- `none` is the error that the attempt is not positive.
unfoldable pub compute_retry_delay_ms : (attempt : ℕ) → RetryConfig → Option ℕ
compute_retry_delay_ms attempt c =
    if ltb attempt 1
    then none
    else some (backoff c.initial_delay_ms c.factor c.max_delay_ms attempt)

unfoldable pub should_auto_disable : (consecutive_failures : ℕ) → RetryConfig → Bool
should_auto_disable consecutive_failures c = leb c.auto_disable_after consecutive_failures

-- Every attempt from the first on has a delay. With a factor of at least 1 it never shrinks from one
-- attempt to a later one, and it never passes `maxDelayMs`.
pub compute_retry_delay_ms_mono :
    (n m : ℕ) (c : RetryConfig)
    → 1 ≤ c.factor
    → 1 ≤ n
    → n ≤ m
    → (d : ℕ) × (e : ℕ) × (compute_retry_delay_ms n c ≡ some d)
      × (compute_retry_delay_ms m c ≡ some e)
      × (d ≤ e)
      × (e ≤ c.max_delay_ms)
unfolding compute_retry_delay_ms
compute_retry_delay_ms_mono n m c h one le = (
  backoff c.initial_delay_ms c.factor c.max_delay_ms n,
  backoff c.initial_delay_ms c.factor c.max_delay_ms m,
  ground arith,
  ground arith,
  backoff_mono c.initial_delay_ms c.factor c.max_delay_ms n m h le,
  omega arith,
)
