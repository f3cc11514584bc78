-- ===== src/EmailOutbox/Recorder.antt =====
-- `EmailOutboxRecorder.enqueue` of core/email/email-outbox.ts. The fresh id (UUID v7) and the clock
-- are arguments.
use nest_base.Base.{ℕ, String, Option, none, some, List, str_eq, if◌then◌else◌}
use nest_base.EmailOutbox.Planner.{pending}
use nest_base.EmailOutbox.Storage.{Kind, EmailOutboxRecord, append, find_by_idempotency_key}

pub record EnqueueInput (P : Type 0) : Type 0 where
  pub kind : Kind
  pub payload : P
  pub idempotency_key : Option String

-- The record returned with the table after, or `none` where the insert breaks a unique key.
module _ {P : Type 0} (id : String) (now : ℕ) where
  unfoldable pub new_record : EnqueueInput P → EmailOutboxRecord P
  new_record input = record {
    id = id;
    kind = input.kind;
    payload = input.payload;
    idempotency_key = input.idempotency_key;
    status = pending;
    attempt_count = 0;
    next_attempt_at = none;
    claimed_at = none;
    last_error = none;
    succeeded_at = none;
    failed_at = none;
    created_at = now;
    updated_at = now;
  }

  insert_new :
      EnqueueInput P
      → List (EmailOutboxRecord P)
      → Option (EmailOutboxRecord P × List (EmailOutboxRecord P))
  insert_new input rows = elim (append (new_record input) rows) [
    | none ↦ none
    | some rows' ↦ some (new_record input, rows')
  ]

  -- if (input.idempotencyKey) { … }: the empty key is looked up no more than a missing one
  existing : EnqueueInput P → List (EmailOutboxRecord P) → Option (EmailOutboxRecord P)
  existing input rows = elim input.idempotency_key [
    | none ↦ none
    | some k ↦ if str_eq k "" then none else find_by_idempotency_key k rows
  ]

  unfoldable pub enqueue :
      EnqueueInput P
      → List (EmailOutboxRecord P)
      → Option (EmailOutboxRecord P × List (EmailOutboxRecord P))
  unfolding existing insert_new
  enqueue input rows = elim (existing input rows) [
    | some r ↦ some (r, rows)
    | none ↦ insert_new input rows
  ]
