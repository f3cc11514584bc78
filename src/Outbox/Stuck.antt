-- ===== src/Outbox/Stuck.antt =====
-- An entry whose dispatch has failed stays in flight: no later tick picks it up, until the process
-- starts anew.
use nest_base.Base.{
  ℕ, String, true, false, not, ◌||◌, ◌≡◌, List, [], ◌∷◌, arith, eq_iff, str_eq, filter, All,
  All-take, leb, Bool-cases, inl, inr,
}
use nest_base.Base.Table.{update_many, All-update_many}
use nest_base.Outbox.Storage.{
  OutboxEntry, has_id, is_open, is_selected, is_unprocessed, at_sentinel, attempted_row,
  processed_row, inflight_row, claim_batch, select_batch, mark_processed,
  increment_dispatch_attempt_count,
}
use nest_base.Outbox.Batches.{All-order_by_seq}
use nest_base.Outbox.Worker.{
  OutboxWorkerOptions, OutboxWorkerResult, Tick, process_entry, process_batch, run_once,
}

module _ {P : Type 0} where
  -- the interval timer of `OutboxWorkerLifecycle`
  unfoldable pub run_ticks :
      OutboxWorkerOptions → List (Tick P) → List (OutboxEntry P) → List (OutboxEntry P)
  unfolding run_once
  run_ticks options [] rows = rows
  run_ticks options (tick ∷ ticks) rows = run_ticks options ticks (run_once options tick rows).0

module _ {P : Type 0} (id : String) where
  -- The row with this id, if there is one, is in flight.
  abbrev pub IsStuck : OutboxEntry P → Type 0
  IsStuck r = (not (str_eq r.id id) || at_sentinel r.processed_at) ≡ true

  abbrev pub IsOther : OutboxEntry P → Type 0
  IsOther e = str_eq e.id id ≡ false

  filter-IsOther :
      (rows : List (OutboxEntry P)) → All IsStuck rows → All IsOther (filter is_unprocessed rows)
  filter-IsOther [] h = tt
  filter-IsOther (r ∷ rows) h = ground (arith, h.0, filter-IsOther rows h.1)

  claim_batch-IsOther :
      (limit now : ℕ) (rows : List (OutboxEntry P))
      → All IsStuck rows
      → All IsOther (claim_batch limit now rows).0
  unfolding claim_batch
  claim_batch-IsOther limit now rows h = elim (Bool-cases (leb limit 0)) [
    | inl empty ↦ rw empty tt
    | inr more ↦
        rw more (All-take IsOther limit _ (All-order_by_seq IsOther _ (filter-IsOther rows h)))
  ]

  claim_batch-IsStuck :
      (limit now : ℕ) (rows : List (OutboxEntry P))
      → All IsStuck rows
      → All IsStuck (claim_batch limit now rows).1
  unfolding claim_batch
  claim_batch-IsStuck limit now rows h = elim (Bool-cases (leb limit 0)) [
    | inl empty ↦ rw empty h
    | inr more ↦ rw more (
        All-update_many (is_selected (select_batch limit rows)) (inflight_row now) IsStuck
          (λ r e k. ground arith) rows h)
  ]

  process_entry-IsStuck :
      (options : OutboxWorkerOptions) (tick : Tick P) (entry : OutboxEntry P)
      (rows : List (OutboxEntry P)) (result : OutboxWorkerResult)
      → IsOther entry
      → All IsStuck rows
      → All IsStuck (process_entry options tick entry rows result).0
  unfolding process_entry mark_processed increment_dispatch_attempt_count
  process_entry-IsStuck options tick entry rows result other h =
      let bumped = All-update_many (has_id entry.id) attempted_row IsStuck (λ r e k. k) rows h in
      let marked = λ (at : ℕ).
        All-update_many (is_open entry.id) (processed_row at) IsStuck
          (λ r e k. ground (arith, eq_iff r.id entry.id, eq_iff r.id id, eq_iff entry.id id))
          (update_many (has_id entry.id) attempted_row rows) bumped in
      ground (arith, bumped, marked tick.snapshot, marked (tick.finished_at entry))

  process_batch-IsStuck :
      (options : OutboxWorkerOptions) (tick : Tick P) (batch rows : List (OutboxEntry P))
      (result : OutboxWorkerResult)
      → All IsOther batch
      → All IsStuck rows
      → All IsStuck (process_batch options tick batch rows result).0
  unfolding process_batch
  process_batch-IsStuck options tick [] rows result others h = h
  process_batch-IsStuck options tick (e ∷ batch) rows result others h =
      process_batch-IsStuck options tick batch (process_entry options tick e rows result).0
        (process_entry options tick e rows result).1 others.1
        (process_entry-IsStuck options tick e rows result others.0 h)

  run_once-IsStuck :
      (options : OutboxWorkerOptions) (tick : Tick P) (rows : List (OutboxEntry P))
      → All IsStuck rows
      → All IsStuck (run_once options tick rows).0
  unfolding run_once
  run_once-IsStuck options tick rows h =
      process_batch-IsStuck options tick (claim_batch options.batch_size tick.now rows).0
        (claim_batch options.batch_size tick.now rows).1 _
        (claim_batch-IsOther options.batch_size tick.now rows h)
        (claim_batch-IsStuck options.batch_size tick.now rows h)

  run_ticks-IsStuck :
      (options : OutboxWorkerOptions) (ticks : List (Tick P)) (rows : List (OutboxEntry P))
      → All IsStuck rows
      → All IsStuck (run_ticks options ticks rows)
  unfolding run_ticks
  run_ticks-IsStuck options [] rows h = h
  run_ticks-IsStuck options (tick ∷ ticks) rows h =
      run_ticks-IsStuck options ticks (run_once options tick rows).0
        (run_once-IsStuck options tick rows h)

  -- While a row is in flight, as a failed dispatch leaves it, no tick of the worker takes it up
  -- again, however many ticks have passed and whatever their clocks say.
  pub in_flight_not_retried :
      (options : OutboxWorkerOptions) (ticks : List (Tick P)) (now : ℕ)
      (rows : List (OutboxEntry P))
      → All IsStuck rows
      → All IsOther (claim_batch options.batch_size now (run_ticks options ticks rows)).0
  in_flight_not_retried options ticks now rows h =
      claim_batch-IsOther options.batch_size now (run_ticks options ticks rows)
        (run_ticks-IsStuck options ticks rows h)
