-- ===== src/EmailOutbox/Planner.antt =====
-- core/email/email-outbox-planner.ts and the state machine of email-outbox-action-planner.ts. Times
-- are milliseconds, and the numbers are exact where JavaScript's are doubles.
use nest_base.Base.{
  ℕ, ◌+◌, ◌-◌, ◌*◌, String, Bool, true, false, not, Option, none, some, ltb, leb, if◌then◌else◌,
}
use nest_base.Base.Backoff.{backoff}

pub data Status : Type 0 where
  pending sent dead_letter cancelled : Status

pub data ErrorKind : Type 0 where
  transient permanent : ErrorKind

pub record RetryConfig : Type 0 where
  pub initial_delay_ms : ℕ
  pub factor : ℕ
  pub max_delay_ms : ℕ
  pub max_attempts : ℕ

abbrev pub default_email_outbox_retry : RetryConfig
default_email_outbox_retry = record {
  initial_delay_ms = 60_000;
  factor = 5;
  max_delay_ms = 2 * 60 * 60 * 1000;
  max_attempts = 5;
}

abbrev pub stale_claim_threshold_ms : ℕ
stale_claim_threshold_ms = 30_000

-- `throws` is the error that `attemptCount` is not positive.
pub data RetryPlan : Type 0 where
  throws : RetryPlan
  terminal : RetryPlan
  next_attempt_at : ℕ → RetryPlan

abbrev pub delay_ms : RetryConfig → (attempt_count : ℕ) → ℕ
delay_ms config n = backoff config.initial_delay_ms config.factor config.max_delay_ms n

unfoldable pub plan_email_retry :
    (attempt_count : ℕ) → ErrorKind → (now : ℕ) → RetryConfig → RetryPlan
plan_email_retry n kind now config = if ltb n 1 then throws else elim kind [
  | permanent ↦ terminal
  | transient ↦
      if leb config.max_attempts n then terminal else next_attempt_at (now + delay_ms config n)
]

-- A claim later than `now` gives a negative difference in JavaScript and 0 here: neither is stale.
unfoldable pub is_stale_claim : Option ℕ → (now : ℕ) → Bool
is_stale_claim none now = false
is_stale_claim (some claimed_at) now = ltb stale_claim_threshold_ms (now - claimed_at)

abbrev pub is_pending : Status → Bool
is_pending pending = true
is_pending _ = false

-- claimedAt && !isStaleClaim(claimedAt, now)
abbrev pub has_live_claim : Option ℕ → ℕ → Bool
has_live_claim none now = false
has_live_claim (some c) now = not (is_stale_claim (some c) now)

abbrev pub is_later : Option ℕ → ℕ → Bool
is_later none now = false
is_later (some t) now = ltb now t

unfoldable pub should_dispatch_now :
    Status → (next_attempt_at claimed_at : Option ℕ) → (now : ℕ) → Bool
unfolding is_stale_claim
should_dispatch_now status next claimed now =
    if not (is_pending status)
    then false
    else if has_live_claim claimed now
    then false
    else if is_later next now
    then false
    else true

pub data AdminAction : Type 0 where
  retry cancel : AdminAction

pub data Decision : Type 0 where
  allowed : Decision
  refused : (reason : String) → Decision

unfoldable pub plan_outbox_admin_action : AdminAction → Status → Decision
plan_outbox_admin_action retry sent = refused "record is already sent — retry is not meaningful"
plan_outbox_admin_action retry cancelled =
    refused "record is cancelled — re-enqueue a new record instead"
plan_outbox_admin_action retry _ = allowed
plan_outbox_admin_action cancel sent = refused "record is already sent — cancel has no effect"
plan_outbox_admin_action cancel cancelled = refused "record is already cancelled"
plan_outbox_admin_action cancel _ = allowed
