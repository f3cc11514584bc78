-- ===== src/Outbox/Recorder.antt =====
-- `OutboxRecorder` of core/outbox/outbox.ts, with the start-up of outbox.module.ts that seeds it. The
-- fresh id (UUID v7) and the clock are arguments.
use nest_base.Base.{
  ℕ, Bool, true, ◌+◌, ◌≤◌, ◌<◌, String, ◌≡◌, Option, none, some, List, [], ◌∷◌, arith, ltb, str_eq,
  if◌then◌else◌, All, All-mono, All-append, any, Bool-cases, inl, inr,
}
use nest_base.Outbox.Storage.{OutboxEntry, append, has_id, max_seq, reset_stale_sentinels}

pub record RecordInput (P : Type 0) : Type 0 where
  pub tenant_id : String
  pub type : String
  pub payload : P

pub record Recorder (P : Type 0) : Type 0 where
  pub next_seq : ℕ
  pub rows : List (OutboxEntry P)

pub data Recorded (P : Type 0) : Type 0 where
  recorded : OutboxEntry P → Recorded P
  type_required : Recorded P
  append_failed : Recorded P

-- What a start finds: a database, the time of the reset of stale rows if that succeeds, and whether
-- the query for the highest number does.
pub record Start : Type 0 where
  pub has_database : Bool
  pub reset : Option ℕ
  pub max_seq_answers : Bool

abbrev pub IsSeeded : Start → Type 0
IsSeeded start = (start.has_database ≡ true) × (start.max_seq_answers ≡ true)

module _ {P : Type 0} where
  unfoldable pub init_seq : ℕ → Recorder P → Recorder P
  init_seq next s = if ltb s.next_seq next then record s { next_seq = next } else s

  abbrev pub new_entry : String → ℕ → ℕ → RecordInput P → OutboxEntry P
  new_entry id seq now input = record {
    id = id;
    seq = seq;
    tenant_id = input.tenant_id;
    type = input.type;
    payload = input.payload;
    occurred_at = now;
    processed_at = none;
    claimed_at = none;
    dispatch_attempt_count = 0;
  }

  stored : OutboxEntry P → Option (List (OutboxEntry P)) → Recorder P → Recorded P × Recorder P
  stored entry none s = (append_failed, s)
  stored entry (some rows') s = (recorded entry, record s { rows = rows' })

  -- `this.nextSeq++` is evaluated before the insert, and stays when the insert fails.
  unfoldable pub record_event :
      String → (now : ℕ) → RecordInput P → Recorder P → Recorded P × Recorder P
  unfolding stored
  record_event id now input s =
      let entry = new_entry id s.next_seq now input in
      if str_eq input.type ""
      then (type_required, s)
      else stored entry (append entry s.rows) (record s { next_seq = s.next_seq + 1 })

  unfoldable pub fresh : List (OutboxEntry P) → Recorder P
  fresh rows = record { next_seq = 1; rows = rows }

  unfoldable pub reset_at : Option ℕ → List (OutboxEntry P) → List (OutboxEntry P)
  unfolding reset_stale_sentinels
  reset_at none rows = rows
  reset_at (some now) rows = reset_stale_sentinels now rows

  -- `onModuleInit` up to the timer: a recorder starts at 1, and is moved past the rows that are there
  -- if they can be asked for.
  unfoldable pub boot : Start → List (OutboxEntry P) → Recorder P
  unfolding init_seq fresh reset_at
  boot start rows =
      let rows' = reset_at start.reset rows in
      if start.has_database
      then if start.max_seq_answers then init_seq (max_seq rows' + 1) (fresh rows') else fresh rows'
      else fresh rows

  -- Every row's number is below the next one.
  abbrev pub IsAhead : Recorder P → Type 0
  IsAhead s = All (λ r. r.seq < s.next_seq) s.rows

  seq-le-max_seq : (rows : List (OutboxEntry P)) → All (λ r. r.seq ≤ max_seq rows) rows
  unfolding max_seq
  seq-le-max_seq [] = tt
  seq-le-max_seq (r ∷ rows) = (
    ground arith,
    All-mono (λ q. q.seq ≤ max_seq rows) (λ q. q.seq ≤ max_seq (r ∷ rows)) (λ q h. ground arith)
        rows (seq-le-max_seq rows),
  )

  init_seq-IsAhead :
      (rows : List (OutboxEntry P)) → IsAhead (init_seq (max_seq rows + 1) (fresh rows))
  unfolding init_seq fresh
  init_seq-IsAhead rows = elim (Bool-cases (ltb 1 (max_seq rows + 1))) [
    | inl more ↦ rw more (
        All-mono (λ q. q.seq ≤ max_seq rows) (λ q. q.seq < max_seq rows + 1) (λ q h. omega arith)
          rows (seq-le-max_seq rows))
    | inr none_yet ↦ rw none_yet (
        All-mono (λ q. q.seq ≤ max_seq rows) (λ q. q.seq < 1) (λ q h. ground arith) rows
          (seq-le-max_seq rows))
  ]

  boot-IsAhead :
      (start : Start) (rows : List (OutboxEntry P)) → IsSeeded start → IsAhead (boot start rows)
  unfolding boot
  boot-IsAhead start rows (connected, answers) =
      rw (connected, answers) (init_seq-IsAhead (reset_at start.reset rows))

  seq-recorded :
      (id : String) (now : ℕ) (input : RecordInput P) (s : Recorder P) {e : OutboxEntry P}
      {s' : Recorder P}
      → record_event id now input s ≡ (recorded e, s')
      → e.seq ≡ s.next_seq
  unfolding record_event append
  seq-recorded id now input s h = ground arith

  record_event-IsAhead :
      (id : String) (now : ℕ) (input : RecordInput P) (s : Recorder P)
      → IsAhead s
      → IsAhead (record_event id now input s).1
  unfolding record_event append
  record_event-IsAhead id now input s h =
      let e = new_entry id s.next_seq now input in
      let later =
        All-mono (λ r. r.seq < s.next_seq) (λ r. r.seq < s.next_seq + 1) (λ r k. omega arith) s.rows
          h in
      elim (Bool-cases (str_eq input.type "")) [
        | inl empty ↦ rw (empty, record_event) h
        | inr typed ↦ elim (Bool-cases (any (has_id id) s.rows)) [
          | inl known ↦ rw (typed, record_event) (rw (known, stored) later)
          | inr fresh ↦
              rw (typed, record_event)
                (rw (fresh, stored)
                  (All-append (λ r. r.seq < s.next_seq + 1) s.rows (e ∷ []) later
                    (omega arith, tt)))
        ]
      ]

  unfoldable pub record_events : List (String × ℕ × RecordInput P) → Recorder P → Recorder P
  unfolding record_event
  record_events [] s = s
  record_events ((id, now, input) ∷ events) s = record_events events (record_event id now input s).1

  record_events-IsAhead :
      (events : List (String × ℕ × RecordInput P)) (s : Recorder P)
      → IsAhead s
      → IsAhead (record_events events s)
  unfolding record_events
  record_events-IsAhead [] s h = h
  record_events-IsAhead ((id, now, input) ∷ events) s h =
      record_events-IsAhead events _ (record_event-IsAhead id now input s h)

  -- After a start over any table of the database in which the query for its highest number
  -- succeeds, and any events recorded since one after the other, failed inserts included, an event
  -- that is recorded gets a number above those of all rows in the table, where no other recorder
  -- writes to it.
  pub record_event-fresh :
      (start : Start) (rows : List (OutboxEntry P)) (events : List (String × ℕ × RecordInput P))
      (id : String) (now : ℕ) (input : RecordInput P) {e : OutboxEntry P} {s' : Recorder P}
      → IsSeeded start
      → record_event id now input (record_events events (boot start rows)) ≡ (recorded e, s')
      → All (λ r. r.seq < e.seq) (record_events events (boot start rows)).rows
  record_event-fresh start rows events id now input {e} seeded h =
      let ahead = record_events-IsAhead events (boot start rows) (boot-IsAhead start rows seeded) in
      rw (seq-recorded id now input (record_events events (boot start rows)) h) ahead
