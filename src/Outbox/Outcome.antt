-- ===== src/Outbox/Outcome.antt =====
-- What one entry's turn in `OutboxWorker.runOnce` does to its row.
use nest_base.Base.{ℕ, ◌+◌, String, true, ◌≡◌, some, List, [], ◌∷◌, arith, find?, if◌then◌else◌}
use nest_base.Base.Table.{update_many}
use nest_base.Outbox.Storage.{
  OutboxEntry, has_id, at_sentinel, attempted_row, processed_row, inflight_sentinel, mark_processed,
  increment_dispatch_attempt_count,
}
use nest_base.Outbox.Worker.{
  OutboxWorkerOptions, OutboxWorkerResult, Tick, exceeds, all_ok, process_entry,
}

module _ {P : Type 0} where
  find-increment :
      (id : String) (r : OutboxEntry P) (rows : List (OutboxEntry P))
      → find? (has_id id) rows ≡ some r
      → find? (has_id id) (update_many (has_id id) attempted_row rows) ≡ some (attempted_row r)
  find-increment id r [] h = cc
  find-increment id r (q ∷ rows) h = ground (arith, find-increment id r rows)

  find-mark_processed :
      (id : String) (at : ℕ) (r : OutboxEntry P) (rows : List (OutboxEntry P))
      → find? (has_id id) rows ≡ some r
      → at_sentinel r.processed_at ≡ true
      → find? (has_id id) (mark_processed id at rows).1 ≡ some (processed_row at r)
  unfolding mark_processed
  find-mark_processed id at r [] h e = cc
  find-mark_processed id at r (q ∷ rows) h e = ground (arith, find-mark_processed id at r rows)

  -- What the turn makes of a claimed row: one attempt more, and a completion time if that is one
  -- attempt too many or if every dispatcher returned.
  abbrev pub turned : OutboxWorkerOptions → Tick P → OutboxEntry P → OutboxEntry P → OutboxEntry P
  turned options tick entry r =
      if exceeds (r.dispatch_attempt_count + 1) options.max_attempts
      then processed_row tick.snapshot (attempted_row r)
      else if all_ok options tick entry
      then processed_row (tick.finished_at entry) (attempted_row r)
      else attempted_row r

  -- A claimed entry gets a completion time in its turn exactly when its attempts pass the cap or
  -- every dispatcher returns for it. Otherwise its row stays marked as in flight. One attempt is
  -- counted in each case.
  pub find-process_entry :
      (options : OutboxWorkerOptions) (tick : Tick P) (entry r : OutboxEntry P)
      (rows : List (OutboxEntry P)) (result : OutboxWorkerResult)
      → find? (has_id entry.id) rows ≡ some r
      → r.processed_at ≡ some inflight_sentinel
      → find? (has_id entry.id) (process_entry options tick entry rows result).0
        ≡ some (turned options tick entry r)
  unfolding process_entry increment_dispatch_attempt_count
  find-process_entry options tick entry r rows result h e =
      let bumped = find-increment entry.id r rows h in
      let rows' = update_many (has_id entry.id) attempted_row rows in
      rw h (
        ground (
          arith,
          bumped,
          find-mark_processed entry.id tick.snapshot (attempted_row r) rows',
          find-mark_processed entry.id (tick.finished_at entry) (attempted_row r) rows',
        ))
