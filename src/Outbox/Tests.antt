-- ===== src/Outbox/Tests.antt =====
-- Runs of the event outbox, and its theorems at concrete inputs.
use nest_base.Base.{
  ℕ, ◌≤◌, ◌<◌, String, true, false, not, ◌≡◌, refl, some, List, [], ◌∷◌, All, any, find?, length,
  str_eq,
}
use nest_base.Outbox.Storage.{
  OutboxEntry, has_id, is_unprocessed, inflight_row, claim_batch, append, max_seq,
  increment_dispatch_attempt_count, mark_processed,
}
use nest_base.Outbox.Recorder.{
  RecordInput, Recorder, Start, recorded, boot, new_entry, record_event, record_events,
  record_event-fresh,
}
use nest_base.Outbox.Worker.{OutboxWorkerOptions, Tick, process_entry, run_once}
use nest_base.Outbox.Batches.{IsAscending, claim_batch-ordered, claim_batch-disjoint}
use nest_base.Outbox.Outcome.{turned, find-process_entry}
use nest_base.Outbox.Stuck.{IsOther, run_ticks, in_flight_not_retried}

abbrev created : RecordInput String
created = record { tenant_id = "t"; type = "user.created"; payload = "p" }

abbrev entry : String → ℕ → OutboxEntry String
entry id seq = new_entry id seq 5 created

abbrev table : List (OutboxEntry String)
table = entry "b" 8 ∷ entry "a" 7 ∷ entry "c" 9 ∷ []

abbrev after_record : Recorder String
after_record = record {
  next_seq = 11;
  rows = entry "b" 8 ∷ entry "a" 7 ∷ entry "c" 9 ∷ entry "d" 10 ∷ [];
}

abbrev seeded : Start
seeded = record { has_database = true; reset = some 90_000_000; max_seq_answers = true }

record_event-fresh_example : All (λ r. r.seq < 10) (record_events [] (boot seeded table)).rows
unfolding record_event record_events boot max_seq append
record_event-fresh_example =
    record_event-fresh seeded table [] "d" 5 created {e = entry "d" 10} {s' = after_record}
      (refl, refl) refl

-- Where the query for the highest number fails, the numbers begin again at 1.
unseeded_repeats :
    (record_event "d" 5 created
      (boot (record seeded { max_seq_answers = false }) (entry "a" 1 ∷ []))).0
    ≡ recorded (entry "d" 1)
unfolding record_event boot append
unseeded_repeats = refl

-- Two recorders that start over one table give one number twice.
two_recorders_repeat :
    ((record_event "d" 5 created (boot seeded table)).0 ≡ recorded (entry "d" 10))
    × ((record_event "e" 5 created (boot seeded table)).0 ≡ recorded (entry "e" 10))
unfolding record_event boot append max_seq
two_recorders_repeat = (refl, refl)

claim_batch-ordered_example :
    (length (claim_batch 2 20 table).0 ≤ 2)
    × All (λ e. is_unprocessed e ≡ true) (claim_batch 2 20 table).0
    × IsAscending (claim_batch 2 20 table).0
claim_batch-ordered_example = claim_batch-ordered 2 20 table

oldest_first : (claim_batch 2 20 table).0 ≡ entry "a" 7 ∷ entry "b" 8 ∷ []
unfolding claim_batch
oldest_first = refl

claim_batch-disjoint_example :
    All
      (λ e. any (has_id e.id) (claim_batch 2 20 table).0 ≡ false)
      (claim_batch 2 21 (claim_batch 2 20 table).1).0
claim_batch-disjoint_example = claim_batch-disjoint 2 2 20 21 table

abbrev capped : OutboxWorkerOptions
capped = record { batch_size = 2; max_attempts = some 3 }

-- The second of the two dispatchers throws for the entry "b".
abbrev one_fails : Tick String
one_fails = record {
  now = 20;
  snapshot = 21;
  finished_at = λ e. 22;
  dispatchers = (λ e. true) ∷ (λ e. not (str_eq e.id "b")) ∷ [];
}

abbrev after_tick : List (OutboxEntry String)
after_tick =
    (record (inflight_row 20 (entry "b" 8)) { dispatch_attempt_count = 1 })
    ∷ (record (inflight_row 20 (entry "a" 7)) {
      processed_at = some 22;
      dispatch_attempt_count = 1;
    })
    ∷ entry "c" 9
    ∷ []

tick_runs :
    run_once capped one_fails table ≡ (after_tick, record { processed = 1; dead_lettered = 0 })
unfolding run_once claim_batch increment_dispatch_attempt_count mark_processed
tick_runs = refl

find-process_entry_example :
    find?
      (has_id "b")
      (process_entry capped one_fails
        (entry "b" 8)
        (claim_batch 2 20 table).1
        (record { processed = 0; dead_lettered = 0 })).0
    ≡ some (turned capped one_fails (entry "b" 8) (inflight_row 20 (entry "b" 8)))
unfolding claim_batch
find-process_entry_example =
    find-process_entry capped one_fails (entry "b" 8) (inflight_row 20 (entry "b" 8))
      (claim_batch 2 20 table).1 (record { processed = 0; dead_lettered = 0 }) refl refl

in_flight_not_retried_example :
    All (IsOther "b") (claim_batch 2 90 (run_ticks capped (one_fails ∷ []) after_tick)).0
in_flight_not_retried_example =
    in_flight_not_retried "b" capped (one_fails ∷ []) 90 after_tick (refl, (refl, (refl, tt)))
