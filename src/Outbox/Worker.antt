-- ===== src/Outbox/Worker.antt =====
-- `OutboxWorker.runOnce` of core/outbox/outbox-worker.ts, over the statements of `Storage`, which are
-- taken not to fail. A dispatcher is the test whether it returns for an entry, or throws.
use nest_base.Base.{ℕ, ◌+◌, Bool, false, Option, none, some, List, [], ◌∷◌, ltb, if◌then◌else◌, all}
use nest_base.Outbox.Storage.{
  OutboxEntry, claim_batch, increment_dispatch_attempt_count, mark_processed,
}

pub record OutboxWorkerOptions : Type 0 where
  pub batch_size : ℕ
  pub max_attempts : Option ℕ

pub record OutboxWorkerResult : Type 0 where
  pub processed : ℕ
  pub dead_lettered : ℕ

-- One call of `runOnce`: NOW() of the claim, the snapshot `processedAt`, the clock after each
-- dispatch, and what the dispatchers do.
pub record Tick (P : Type 0) : Type 0 where
  pub now : ℕ
  pub snapshot : ℕ
  pub finished_at : OutboxEntry P → ℕ
  pub dispatchers : List (OutboxEntry P → Bool)

-- options.maxAttempts !== undefined && attemptCount > options.maxAttempts
abbrev pub exceeds : ℕ → Option ℕ → Bool
exceeds n none = false
exceeds n (some most) = ltb most n

module _ {P : Type 0} (options : OutboxWorkerOptions) (tick : Tick P) where
  -- Promise.all over the dispatchers: each runs, whatever the others do
  abbrev pub all_ok : OutboxEntry P → Bool
  all_ok entry = all (λ d. d entry) tick.dispatchers

  unfoldable pub process_entry :
      OutboxEntry P
      → List (OutboxEntry P)
      → OutboxWorkerResult
      → List (OutboxEntry P) × OutboxWorkerResult
  process_entry entry rows result =
      let (attempt_count, rows') = increment_dispatch_attempt_count entry.id rows in
      if exceeds attempt_count options.max_attempts
      then (
        (mark_processed entry.id tick.snapshot rows').1,
        record result { dead_lettered = result.dead_lettered + 1 },
      )
      else if all_ok entry
      then (
        (mark_processed entry.id (tick.finished_at entry) rows').1,
        record result { processed = result.processed + 1 },
      )
      else (rows', result)

  unfoldable pub process_batch :
      List (OutboxEntry P)
      → List (OutboxEntry P)
      → OutboxWorkerResult
      → List (OutboxEntry P) × OutboxWorkerResult
  unfolding process_entry
  process_batch [] rows result = (rows, result)
  process_batch (entry ∷ batch) rows result =
      let (rows', result') = process_entry entry rows result in process_batch batch rows' result'

  unfoldable pub run_once : List (OutboxEntry P) → List (OutboxEntry P) × OutboxWorkerResult
  unfolding process_batch
  run_once rows =
      let (batch, rows') = claim_batch options.batch_size tick.now rows in
      process_batch batch rows' (record { processed = 0; dead_lettered = 0 })
