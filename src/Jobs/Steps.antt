-- ===== src/Jobs/Steps.antt =====
-- The queue's operations and turns in any order, and what is to hold throughout.
use nest_base.Base.{
  ℕ, String, Bool, true, false, not, ◌||◌, ◌≡◌, Option, none, some, List, [], ltb, is_some, All,
}
use nest_base.Base.Dict.{get}
use nest_base.Jobs.Queue.{
  JobRecord, JobQueue, Handled, has_handler, register, enqueue, retry_job, start, stop, begin_turn,
  is_empty, finish_turn,
}

module _ {P : Type 0} where
  -- A new queue.
  abbrev pub empty_queue : JobQueue P
  empty_queue = record {
    handlers = [];
    queue = [];
    history = [];
    history_order = [];
    running = false;
    turns = 0;
    current = none;
  }

  -- Between two awaits one of these runs. A turn begins when the one before has ended.
  pub data Step : JobQueue P → JobQueue P → Type 0 where
    registers : {q : JobQueue P} (name : String) → Step q (register name q)
    enqueues :
        {q : JobQueue P} (new_id name : String) (payload : P) (now : ℕ)
        → Step q (enqueue new_id name payload now q).1
    retries : {q : JobQueue P} (id new_id : String) (now : ℕ) → Step q (retry_job id new_id now q).1
    starts : {q : JobQueue P} → Step q (start q)
    stops : {q : JobQueue P} → Step q (stop q)
    begins :
        {q : JobQueue P} (now : ℕ)
        → q.current ≡ none
        → ltb 0 q.turns ≡ true
        → Step q (begin_turn now q)
    finishes :
        {q : JobQueue P} (now : ℕ) (handled : Handled) (r : JobRecord P)
        → q.current ≡ some r
        → Step q (finish_turn now handled r q)

  pub data Reachable : JobQueue P → Type 0 where
    initial : Reachable empty_queue
    next : {q t : JobQueue P} → Reachable q → Step q t → Reachable t

  -- The id's record is there, and its job has a handler.
  abbrev pub has_job : List String → Option (JobRecord P) → Bool
  has_job handlers none = false
  has_job handlers (some r) = has_handler r.name handlers

  abbrev pub IsRunnable : JobQueue P → String → Type 0
  IsRunnable q id = has_job q.handlers (get id q.history) ≡ true

  -- If the worker runs and a job waits, a turn is to come or a handler is at work, whose end starts
  -- the next turn.
  abbrev pub is_awake : JobQueue P → Bool
  is_awake q = not q.running || is_empty q.queue || ltb 0 q.turns || is_some q.current

  abbrev pub is_handled : List String → Option (JobRecord P) → Bool
  is_handled handlers none = true
  is_handled handlers (some r) = has_handler r.name handlers

  abbrev pub IsSound : JobQueue P → Type 0
  IsSound q =
      All (IsRunnable q) q.queue × (is_handled q.handlers q.current ≡ true) × (is_awake q ≡ true)
