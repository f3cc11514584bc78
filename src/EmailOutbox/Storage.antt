-- ===== src/EmailOutbox/Storage.antt =====
-- core/email/email-outbox.prisma.ts: the table `email_outbox` and the statements on it. A statement
-- runs as one step. `P` is the type of payloads. Prisma sets `updatedAt` by its own clock in the
-- statements that leave it out; that is not modelled, and none of the modelled code reads it.
use Prim.Native.Nat.{Ordering}
use Prim.Native.String.{compare as compare_text}
use nest_base.Base.{
  ℕ, ◌-◌, String, Bool, true, false, ◌&&◌, ◌||◌, Option, none, some, List, [], ◌∷◌, ◌++◌, ltb, leb,
  ◌==◌, str_eq, if◌then◌else◌, any, filter, find?, take, length,
}
use nest_base.Base.Table.{update_many}
use nest_base.EmailOutbox.Planner.{
  Status, pending, sent, dead_letter, cancelled, is_pending, stale_claim_threshold_ms,
}

pub data Kind : Type 0 where
  send send_template : Kind

pub record EmailOutboxRecord (P : Type 0) : Type 0 where
  pub id : String
  pub kind : Kind
  pub payload : P
  pub idempotency_key : Option String
  pub status : Status
  pub attempt_count : ℕ
  pub next_attempt_at : Option ℕ
  pub claimed_at : Option ℕ
  pub last_error : Option String
  pub succeeded_at : Option ℕ
  pub failed_at : Option ℕ
  pub created_at : ℕ
  pub updated_at : ℕ

abbrev pub has_key : String → Option String → Bool
has_key k none = false
has_key k (some j) = str_eq j k

abbrev pub same_key : Option String → Option String → Bool
same_key none o = false
same_key (some k) o = has_key k o

-- { OR: [{ claimedAt: null }, { claimedAt: { lt: staleBefore } }] }
abbrev pub is_free : Option ℕ → (stale_before : ℕ) → Bool
is_free none stale_before = true
is_free (some c) stale_before = ltb c stale_before

-- { OR: [{ nextAttemptAt: null }, { nextAttemptAt: { lte: now } }] }
abbrev pub is_due : Option ℕ → (now : ℕ) → Bool
is_due none now = true
is_due (some t) now = leb t now

abbrev pub is_retryable : Status → Bool
is_retryable pending = true
is_retryable dead_letter = true
is_retryable _ = false

abbrev text_lt : String → String → Bool
text_lt a b = elim (compare_text a b) [ Ordering.lt ↦ true | _ ↦ false ]

module _ {P : Type 0} where
  -- `create`: the id and the idempotency key are unique, and `none` is the violation.
  unfoldable pub append :
      EmailOutboxRecord P → List (EmailOutboxRecord P) → Option (List (EmailOutboxRecord P))
  append r rows =
      if any (λ q. str_eq q.id r.id || same_key q.idempotency_key r.idempotency_key) rows
      then none
      else some (rows ++ r ∷ [])

  unfoldable pub find_by_idempotency_key :
      String → List (EmailOutboxRecord P) → Option (EmailOutboxRecord P)
  find_by_idempotency_key key rows = find? (λ r. has_key key r.idempotency_key) rows

  unfoldable pub find_by_id : String → List (EmailOutboxRecord P) → Option (EmailOutboxRecord P)
  find_by_id id rows = find? (λ r. str_eq r.id id) rows

  -- orderBy: [{ createdAt: "asc" }, { id: "asc" }]
  abbrev pub comes_first : EmailOutboxRecord P → EmailOutboxRecord P → Bool
  comes_first r q =
      ltb r.created_at q.created_at || (r.created_at == q.created_at) && text_lt r.id q.id

  unfoldable pub insert_row :
      EmailOutboxRecord P → List (EmailOutboxRecord P) → List (EmailOutboxRecord P)
  insert_row r [] = r ∷ []
  insert_row r (q ∷ rows) = if comes_first q r then q ∷ insert_row r rows else r ∷ q ∷ rows

  unfoldable pub order_rows : List (EmailOutboxRecord P) → List (EmailOutboxRecord P)
  unfolding insert_row
  order_rows [] = []
  order_rows (r ∷ rows) = insert_row r (order_rows rows)

  -- A clock below the threshold makes `staleBefore` negative, and no claim is before it either way.
  unfoldable pub is_dispatchable : ℕ → EmailOutboxRecord P → Bool
  is_dispatchable now r =
      is_pending r.status
      && (is_due r.next_attempt_at now && is_free r.claimed_at (now - stale_claim_threshold_ms))

  unfoldable pub list_dispatchable :
      (now limit : ℕ) → List (EmailOutboxRecord P) → List (EmailOutboxRecord P)
  unfolding is_dispatchable order_rows
  list_dispatchable now limit rows = take limit (order_rows (filter (is_dispatchable now) rows))

  abbrev pub claimable : String → ℕ → EmailOutboxRecord P → Bool
  claimable id claimed_at r =
      str_eq r.id id
      && (is_pending r.status && is_free r.claimed_at (claimed_at - stale_claim_threshold_ms))

  abbrev pub claimed_row : ℕ → EmailOutboxRecord P → EmailOutboxRecord P
  claimed_row at r = record r { claimed_at = some at }

  unfoldable pub claim :
      String → (claimed_at : ℕ) → List (EmailOutboxRecord P) → Bool × List (EmailOutboxRecord P)
  claim id claimed_at rows = (
    any (claimable id claimed_at) rows,
    update_many (claimable id claimed_at) (claimed_row claimed_at) rows,
  )

  abbrev pub has_id : String → EmailOutboxRecord P → Bool
  has_id id r = str_eq r.id id

  abbrev pub sent_row : ℕ → EmailOutboxRecord P → EmailOutboxRecord P
  sent_row at r = record r { status = sent; succeeded_at = some at; claimed_at = none }

  unfoldable pub mark_sent :
      String → (at : ℕ) → List (EmailOutboxRecord P) → Bool × List (EmailOutboxRecord P)
  mark_sent id at rows = (any (has_id id) rows, update_many (has_id id) (sent_row at) rows)

  abbrev pub dead_row : ℕ → String → EmailOutboxRecord P → EmailOutboxRecord P
  dead_row at error r = record r {
    status = dead_letter;
    failed_at = some at;
    last_error = some error;
    claimed_at = none;
  }

  unfoldable pub mark_dead_letter :
      String → (at : ℕ) → String → List (EmailOutboxRecord P) → Bool × List (EmailOutboxRecord P)
  mark_dead_letter id at error rows =
      (any (has_id id) rows, update_many (has_id id) (dead_row at error) rows)

  abbrev pub failed_row :
      (attempt_count next_attempt_at : ℕ) → String → EmailOutboxRecord P → EmailOutboxRecord P
  failed_row attempt_count next_attempt_at error r = record r {
    attempt_count = attempt_count;
    next_attempt_at = some next_attempt_at;
    last_error = some error;
    claimed_at = none;
  }

  unfoldable pub record_transient_failure :
      String
      → (attempt_count next_attempt_at : ℕ) → String
      → List (EmailOutboxRecord P)
      → Bool × List (EmailOutboxRecord P)
  record_transient_failure id attempt_count next_attempt_at error rows = (
    any (has_id id) rows,
    update_many (has_id id) (failed_row attempt_count next_attempt_at error) rows,
  )

  abbrev pub retryable : String → EmailOutboxRecord P → Bool
  retryable id r = str_eq r.id id && is_retryable r.status

  abbrev pub retried_row : ℕ → EmailOutboxRecord P → EmailOutboxRecord P
  retried_row at r = record r {
    status = pending;
    attempt_count = 0;
    next_attempt_at = none;
    claimed_at = none;
    updated_at = at;
  }

  unfoldable pub mark_retry :
      String → (at : ℕ) → List (EmailOutboxRecord P) → Bool × List (EmailOutboxRecord P)
  mark_retry id at rows =
      (any (retryable id) rows, update_many (retryable id) (retried_row at) rows)

  abbrev pub cancelled_row : ℕ → EmailOutboxRecord P → EmailOutboxRecord P
  cancelled_row at r = record r { status = cancelled; claimed_at = none; updated_at = at }

  unfoldable pub mark_cancelled :
      String → (at : ℕ) → List (EmailOutboxRecord P) → Bool × List (EmailOutboxRecord P)
  mark_cancelled id at rows =
      (any (retryable id) rows, update_many (retryable id) (cancelled_row at) rows)

  unfoldable pub count_pending : List (EmailOutboxRecord P) → ℕ
  count_pending rows = length (filter (λ r. is_pending r.status) rows)
