-- ===== src/Outbox/Storage.antt =====
-- core/outbox/outbox.prisma.ts: the table `outbox_entries` and the statements on it, each one step.
-- `P` is the type of payloads; NOW() is an argument.
use nest_base.Base.{
  ℕ, ◌+◌, ◌-◌, String, Bool, true, false, ◌&&◌, ◌||◌, Option, none, some, List, [], ◌∷◌, ◌++◌, ltb,
  leb, ◌==◌, str_eq, if◌then◌else◌, any, filter, find?, take,
}
use nest_base.Base.Table.{update_many}

pub record OutboxEntry (P : Type 0) : Type 0 where
  pub id : String
  pub seq : ℕ
  pub tenant_id : String
  pub type : String
  pub payload : P
  pub occurred_at : ℕ
  pub processed_at : Option ℕ
  pub claimed_at : Option ℕ
  pub dispatch_attempt_count : ℕ

-- 9999-12-31T23:59:59.999Z
abbrev pub inflight_sentinel : ℕ
inflight_sentinel = 253_402_300_799_999

-- INTERVAL '5 minutes'
abbrev pub dispatch_deadline_ms : ℕ
dispatch_deadline_ms = 300_000

-- processed_at IS NULL
abbrev pub is_null : Option ℕ → Bool
is_null none = true
is_null (some t) = false

-- processed_at = sentinel; a comparison with NULL does not hold
abbrev pub at_sentinel : Option ℕ → Bool
at_sentinel none = false
at_sentinel (some t) = t == inflight_sentinel

-- claimed_at < stale_before
abbrev pub is_before : Option ℕ → ℕ → Bool
is_before none t = false
is_before (some c) t = ltb c t

module _ {P : Type 0} where
  abbrev pub has_id : String → OutboxEntry P → Bool
  has_id id r = str_eq r.id id

  -- INSERT; the id is the primary key
  unfoldable pub append : OutboxEntry P → List (OutboxEntry P) → Option (List (OutboxEntry P))
  append entry rows = if any (has_id entry.id) rows then none else some (rows ++ entry ∷ [])

  -- ORDER BY seq ASC
  unfoldable pub insert_entry : OutboxEntry P → List (OutboxEntry P) → List (OutboxEntry P)
  insert_entry r [] = r ∷ []
  insert_entry r (q ∷ rows) = if ltb q.seq r.seq then q ∷ insert_entry r rows else r ∷ q ∷ rows

  unfoldable pub order_by_seq : List (OutboxEntry P) → List (OutboxEntry P)
  unfolding insert_entry
  order_by_seq [] = []
  order_by_seq (r ∷ rows) = insert_entry r (order_by_seq rows)

  abbrev pub is_unprocessed : OutboxEntry P → Bool
  is_unprocessed r = is_null r.processed_at

  -- the SELECT of `claimBatch`
  unfoldable pub select_batch : (limit : ℕ) → List (OutboxEntry P) → List (OutboxEntry P)
  unfolding order_by_seq
  select_batch limit rows = take limit (order_by_seq (filter is_unprocessed rows))

  -- the UPDATE of `claimBatch`: id IN (…) AND processed_at IS NULL
  abbrev pub is_selected : List (OutboxEntry P) → OutboxEntry P → Bool
  is_selected batch r = any (has_id r.id) batch && is_unprocessed r

  abbrev pub inflight_row : ℕ → OutboxEntry P → OutboxEntry P
  inflight_row now r = record r { processed_at = some inflight_sentinel; claimed_at = some now }

  unfoldable pub claim_batch :
      (limit now : ℕ) → List (OutboxEntry P) → List (OutboxEntry P) × List (OutboxEntry P)
  unfolding select_batch
  claim_batch limit now rows =
      let batch = select_batch limit rows in
      if leb limit 0
      then ([], rows)
      else (batch, update_many (is_selected batch) (inflight_row now) rows)

  abbrev pub attempted_row : OutboxEntry P → OutboxEntry P
  attempted_row r = record r { dispatch_attempt_count = r.dispatch_attempt_count + 1 }

  -- RETURNING dispatch_attempt_count, 0 where no row has the id
  abbrev pub attempts_of : Option (OutboxEntry P) → ℕ
  attempts_of none = 0
  attempts_of (some r) = r.dispatch_attempt_count + 1

  unfoldable pub increment_dispatch_attempt_count :
      String → List (OutboxEntry P) → ℕ × List (OutboxEntry P)
  increment_dispatch_attempt_count id rows =
      (attempts_of (find? (has_id id) rows), update_many (has_id id) attempted_row rows)

  abbrev pub is_open : String → OutboxEntry P → Bool
  is_open id r = str_eq r.id id && (is_null r.processed_at || at_sentinel r.processed_at)

  abbrev pub processed_row : ℕ → OutboxEntry P → OutboxEntry P
  processed_row at r = record r { processed_at = some at }

  unfoldable pub mark_processed :
      String → (processed_at : ℕ) → List (OutboxEntry P) → Bool × List (OutboxEntry P)
  mark_processed id at rows =
      (any (is_open id) rows, update_many (is_open id) (processed_row at) rows)

  unfoldable pub max_seq : List (OutboxEntry P) → ℕ
  max_seq [] = 0
  max_seq (r ∷ rows) = let m = max_seq rows in if ltb m r.seq then r.seq else m

  abbrev pub is_stale : ℕ → OutboxEntry P → Bool
  is_stale now r = at_sentinel r.processed_at && is_before r.claimed_at (now - dispatch_deadline_ms)

  abbrev pub reset_row : OutboxEntry P → OutboxEntry P
  reset_row r = record r { processed_at = none }

  unfoldable pub reset_stale_sentinels : (now : ℕ) → List (OutboxEntry P) → List (OutboxEntry P)
  reset_stale_sentinels now rows = update_many (is_stale now) reset_row rows
