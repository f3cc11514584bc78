-- ===== src/Jobs/Soundness.antt =====
-- The queue's invariant holds in every state that it can come to: a job that waits has a turn to come.
use nest_base.Base.{
  ℕ, ◌+◌, ◌-◌, String, Bool, true, false, not, ◌&&◌, ◌||◌, ◌≡◌, refl, sym, ap, ◌∙◌, Option, none,
  some, List, [], ◌∷◌, ltb, arith, eq_refl, All, All-append, if◌then◌else◌, Bool-cases, inl, inr,
}
use nest_base.Base.Dict.{Dict, get, put, get-put}
use nest_base.Jobs.Queue.{
  JobState, JobRecord, JobQueue, Handled, returns, throws, has_handler, register, new_record, added,
  enqueue_internal, enqueue, retry_of, retry_job, start, stop, stored, begin_record, begin_queued,
  begin_turn, settled, is_empty, finish_turn, schedule_process,
}
use nest_base.Jobs.Steps.{
  Step, registers, enqueues, retries, starts, stops, begins, finishes, Reachable, initial, next,
  has_job, IsRunnable, is_handled, IsSound,
}

at_rest : (b e x y : Bool) → b && not e ≡ false → not b || e || x || y ≡ true
at_rest true true x y h = refl
at_rest true false x y h = cc
at_rest false e x y h = refl

module _ {P : Type 0} where
  -- Writing a record whose job has a handler keeps the others runnable.
  All-put :
      (r : JobRecord P) (handlers : List String) (history : Dict (JobRecord P)) (ids : List String)
      → has_handler r.name handlers ≡ true
      → All (λ id. has_job handlers (get id history) ≡ true) ids
      → All (λ id. has_job handlers (get id (put r.id r history)) ≡ true) ids
  All-put r handlers history [] h each = tt
  All-put r handlers history (id ∷ ids) h each =
      ground (arith, get-put r.id id r history, All-put r handlers history ids h)

  has_job-register :
      (name : String) (handlers : List String) (o : Option (JobRecord P))
      → has_job handlers o ≡ true
      → has_job (name ∷ handlers) o ≡ true
  has_job-register name handlers none h = h
  has_job-register name handlers (some r) h = ground arith

  All-register :
      (name : String) (handlers : List String) (history : Dict (JobRecord P)) (ids : List String)
      → All (λ id. has_job handlers (get id history) ≡ true) ids
      → All (λ id. has_job (name ∷ handlers) (get id history) ≡ true) ids
  All-register name handlers history [] each = tt
  All-register name handlers history (id ∷ ids) each = (
    has_job-register name handlers (get id history) each.0,
    All-register name handlers history ids each.1,
  )

  is_handled-register :
      (name : String) (handlers : List String) (o : Option (JobRecord P))
      → is_handled handlers o ≡ true
      → is_handled (name ∷ handlers) o ≡ true
  is_handled-register name handlers none e = refl
  is_handled-register name handlers (some r) e = ground arith

  register-IsSound : (name : String) (q : JobQueue P) → IsSound q → IsSound (register name q)
  unfolding register
  register-IsSound name q h = elim (Bool-cases (has_handler name q.handlers)) [
    | inl e ↦ rw e h
    | inr e ↦ rw e (
      All-register name q.handlers q.history q.queue h.0,
      is_handled-register name q.handlers q.current h.1,
      h.2,
    )
  ]

  added-IsRunnable :
      (r : JobRecord P) (q : JobQueue P)
      → has_handler r.name q.handlers ≡ true
      → All (IsRunnable q) q.queue
      → All (IsRunnable (added r q)) (added r q).queue
  added-IsRunnable r q h each =
      All-append (IsRunnable (added r q)) q.queue (r.id ∷ [])
        (All-put r q.handlers q.history q.queue h each)
        (rw (get-put r.id r.id r q.history, eq_refl r.id) h, tt)

  enqueue-IsSound :
      (new_id name : String) (payload : P) (attempt now : ℕ) (q : JobQueue P)
      → IsSound q
      → IsSound (enqueue_internal new_id name payload attempt now q).1
  unfolding enqueue_internal
  enqueue-IsSound new_id name payload attempt now q h =
      elim (Bool-cases (has_handler name q.handlers)) [
        | inl e ↦
            rw e (enqueued (added-IsRunnable (new_record new_id name payload attempt now) q e h.0))
        | inr e ↦ rw e h
      ]
    where
      q' : JobQueue P
      q' = added (new_record new_id name payload attempt now) q

      enqueued :
          All (IsRunnable q') q'.queue → IsSound (if q.running then schedule_process q' else q')
      enqueued each = elim (Bool-cases q.running) [
        | inl e ↦ rw e (each, h.1, ground arith)
        | inr e ↦ rw e (each, h.1, refl)
      ]

  retry-IsSound :
      (id new_id : String) (now : ℕ) (o : Option (JobRecord P)) (q : JobQueue P)
      → IsSound q
      → IsSound (retry_of id new_id now o q).1
  unfolding retry_of
  retry-IsSound id new_id now none q h = h
  retry-IsSound id new_id now (some r) q h =
      ground (arith, enqueue-IsSound new_id r.name r.payload (r.attempt + 1) now q h)

  if-IsSound : (b : Bool) (q t : JobQueue P) → IsSound q → IsSound t → IsSound (if b then q else t)
  if-IsSound true q t hq ht = hq
  if-IsSound false q t hq ht = ht

  start-IsSound : (q : JobQueue P) → IsSound q → IsSound (start q)
  unfolding start
  start-IsSound q h =
      if-IsSound q.running q (schedule_process (record q { running = true })) h
        (h.0, h.1, ground arith)

  begin_record-IsSound :
      (now : ℕ) (o : Option (JobRecord P)) (q : JobQueue P)
      → has_job q.handlers o ≡ true
      → All (IsRunnable q) q.queue
      → q.current ≡ none
      → IsSound (begin_record now o q)
  unfolding begin_record
  begin_record-IsSound now none q h each idle = cc
  begin_record-IsSound now (some r) q h each idle =
      let begun = record r { state = JobState.active; started_at = some now } in
      rw h (All-put begun q.handlers q.history q.queue h each, h, ground arith)

  begin_queued-IsSound :
      (now : ℕ) (ids : List String) (q : JobQueue P)
      → q.current ≡ none
      → All (IsRunnable q) ids
      → IsSound (begin_queued now ids (record q { queue = ids }))
  unfolding begin_queued
  begin_queued-IsSound now [] q idle each = (tt, ap (is_handled q.handlers) idle, ground arith)
  begin_queued-IsSound now (id ∷ ids) q idle each =
      begin_record-IsSound now (get id q.history) (record q { queue = ids }) each.0 each.1 idle

  begin_turn-IsSound :
      (now : ℕ) (q : JobQueue P) → q.current ≡ none → IsSound q → IsSound (begin_turn now q)
  unfolding begin_turn
  begin_turn-IsSound now q idle h = elim (Bool-cases q.running) [
    | inl e ↦ rw e (
        begin_queued-IsSound now q.queue (record q { turns = q.turns - 1; running = true }) idle
          h.0)
    | inr e ↦ rw e (h.0, h.1, refl)
  ]

  settled-IsRunnable :
      (now : ℕ) (handled : Handled) (r : JobRecord P) (q : JobQueue P)
      → has_handler r.name q.handlers ≡ true
      → All (IsRunnable q) q.queue
      → All (IsRunnable (stored (settled now handled r) q)) q.queue
  settled-IsRunnable now returns r q h each =
      All-put (settled now returns r) q.handlers q.history q.queue h each
  settled-IsRunnable now (throws message stack) r q h each =
      All-put (settled now (throws message stack) r) q.handlers q.history q.queue h each

  finish_turn-IsSound :
      (now : ℕ) (handled : Handled) (r : JobRecord P) (q : JobQueue P)
      → q.current ≡ some r
      → IsSound q
      → IsSound (finish_turn now handled r q)
  unfolding finish_turn
  finish_turn-IsSound now handled r q busy h =
      let each =
        settled-IsRunnable now handled r q (sym (ap (is_handled q.handlers) busy) ∙ h.1) h.0 in
      elim (Bool-cases (q.running && not (is_empty q.queue))) [
        | inl e ↦ rw e (each, refl, ground arith)
        | inr e ↦ rw e (each, refl, at_rest q.running (is_empty q.queue) (ltb 0 q.turns) false e)
      ]

  Step-IsSound : (q t : JobQueue P) → Step q t → IsSound q → IsSound t
  unfolding enqueue retry_job stop
  Step-IsSound q t (registers name) h = register-IsSound name q h
  Step-IsSound q t (enqueues new_id name payload now) h =
      enqueue-IsSound new_id name payload 1 now q h
  Step-IsSound q t (retries id new_id now) h = retry-IsSound id new_id now (get id q.history) q h
  Step-IsSound q t starts h = start-IsSound q h
  Step-IsSound q t stops h = (h.0, h.1, refl)
  Step-IsSound q t (begins now idle turns) h = begin_turn-IsSound now q idle h
  Step-IsSound q t (finishes now handled r busy) h = finish_turn-IsSound now handled r q busy h

  -- In every state that the queue can come to, with its operations and turns in any order: if the
  -- worker runs and a job waits, a turn is to come or a handler is at work, whose end starts the next
  -- turn. And each waiting job has its record and its handler.
  pub Reachable-IsSound : (q : JobQueue P) → Reachable q → IsSound q
  Reachable-IsSound q initial = (tt, refl, refl)
  Reachable-IsSound t (next {q} before step) = Step-IsSound q t step (Reachable-IsSound q before)
