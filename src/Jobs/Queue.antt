-- ===== src/Jobs/Queue.antt =====
-- `InMemoryJobQueue` of core/jobs/job-queue.ts and `JobRecord` of dev-jobs-aggregations.ts.
-- `processOne` is cut at its await. New ids and the clock come from outside.
use nest_base.Base.{
  ℕ, ◌+◌, ◌-◌, String, Bool, true, false, not, ◌&&◌, Option, none, some, List, [], ◌∷◌, ◌++◌, any,
  str_eq, if◌then◌else◌,
}
use nest_base.Base.Dict.{Dict, get, put}
use Prim.Native.String

pub data JobState : Type 0 where
  created active completed failed cancelled retry : JobState

pub record JobRecord (P : Type 0) : Type 0 where
  pub id : String
  pub name : String
  pub state : JobState
  pub attempt : ℕ
  pub payload : P
  pub created_at : ℕ
  pub started_at : Option ℕ
  pub completed_at : Option ℕ
  pub error_message : Option String
  pub error_stack : Option String

-- `handlers` are the names that have one. `turns` counts the calls of `processOne` that the chain
-- `inFlight` still has to make, and `current` is the record whose handler is awaited.
pub record JobQueue (P : Type 0) : Type 0 where
  pub handlers : List String
  pub queue : List String
  pub history : Dict (JobRecord P)
  pub history_order : List String
  pub running : Bool
  pub turns : ℕ
  pub current : Option (JobRecord P)

-- How a handler ends.
pub data Handled : Type 0 where
  returns : Handled
  throws : (message : String) (stack : Option String) → Handled

pub data Enqueued : Type 0 where
  queued : (id : String) → Enqueued
  handler_not_registered : (name : String) → Enqueued
  job_not_found : (id : String) → Enqueued
  job_not_retryable : (id : String) → JobState → Enqueued

abbrev pub has_handler : String → List String → Bool
has_handler name names = any (λ n. str_eq n name) names

abbrev pub is_failed : JobState → Bool
is_failed failed = true
is_failed _ = false

abbrev pub is_empty : List String → Bool
is_empty [] = true
is_empty (_ ∷ _) = false

module _ {P : Type 0} where
  unfoldable pub register : String → JobQueue P → JobQueue P
  register name q = record q {
    handlers = if has_handler name q.handlers then q.handlers else name ∷ q.handlers;
  }

  abbrev pub schedule_process : JobQueue P → JobQueue P
  schedule_process q = record q { turns = q.turns + 1 }

  abbrev pub new_record : (id name : String) → P → (attempt now : ℕ) → JobRecord P
  new_record id name payload attempt now = record {
    id = id;
    name = name;
    state = created;
    attempt = attempt;
    payload = payload;
    created_at = now;
    started_at = none;
    completed_at = none;
    error_message = none;
    error_stack = none;
  }

  abbrev pub added : JobRecord P → JobQueue P → JobQueue P
  added r q = record q {
    history = put r.id r q.history;
    history_order = q.history_order ++ (r.id ∷ []);
    queue = q.queue ++ (r.id ∷ []);
  }

  unfoldable pub enqueue_internal :
      (new_id name : String) → P → (attempt now : ℕ) → JobQueue P → Enqueued × JobQueue P
  enqueue_internal new_id name payload attempt now q =
      let q' = added (new_record new_id name payload attempt now) q in
      if not (has_handler name q.handlers)
      then (handler_not_registered name, q)
      else (queued new_id, if q.running then schedule_process q' else q')

  unfoldable pub enqueue :
      (new_id name : String) → P → (now : ℕ) → JobQueue P → Enqueued × JobQueue P
  enqueue new_id name payload now q = enqueue_internal new_id name payload 1 now q

  unfoldable pub retry_of :
      (id new_id : String) (now : ℕ) → Option (JobRecord P) → JobQueue P → Enqueued × JobQueue P
  retry_of id new_id now none q = (job_not_found id, q)
  retry_of id new_id now (some original) q =
      if not (is_failed original.state)
      then (job_not_retryable id original.state, q)
      else enqueue_internal new_id original.name original.payload (original.attempt + 1) now q

  -- `retry(id)`
  unfoldable pub retry_job : (id new_id : String) (now : ℕ) → JobQueue P → Enqueued × JobQueue P
  unfolding retry_of
  retry_job id new_id now q = retry_of id new_id now (get id q.history) q

  unfoldable pub start : JobQueue P → JobQueue P
  start q = if q.running then q else schedule_process (record q { running = true })

  unfoldable pub stop : JobQueue P → JobQueue P
  stop q = record q { running = false }

  abbrev pub stored : JobRecord P → JobQueue P → JobQueue P
  stored r q = record q { history = put r.id r q.history }

  unfoldable pub begin_record : (now : ℕ) → Option (JobRecord P) → JobQueue P → JobQueue P
  begin_record now none q = q
  begin_record now (some r) q =
      let refused = record r {
        state = failed;
        error_message = some (String.◌++◌ "job handler not registered: " r.name);
        completed_at = some now;
      } in
      let begun = record r { state = active; started_at = some now } in
      if not (has_handler r.name q.handlers)
      then stored refused q
      else record (stored begun q) { current = some begun }

  unfoldable pub begin_queued : (now : ℕ) → List String → JobQueue P → JobQueue P
  unfolding begin_record
  begin_queued now [] q = q
  begin_queued now (id ∷ ids) q = begin_record now (get id q.history) (record q { queue = ids })

  -- One turn of the chain, as far as the call of the handler.
  unfoldable pub begin_turn : (now : ℕ) → JobQueue P → JobQueue P
  unfolding begin_queued
  begin_turn now q =
      let q' = record q { turns = q.turns - 1 } in
      if not q.running then q' else begin_queued now q'.queue q'

  abbrev pub settled : (now : ℕ) → Handled → JobRecord P → JobRecord P
  settled now returns r = record r { state = completed; completed_at = some now }
  settled now (throws message stack) r = record r {
    state = failed;
    error_message = some message;
    error_stack = stack;
    completed_at = some now;
  }

  -- The rest of the turn, once the handler of the current record has ended.
  unfoldable pub finish_turn : (now : ℕ) → Handled → JobRecord P → JobQueue P → JobQueue P
  finish_turn now handled r q =
      let q' = record (stored (settled now handled r) q) { current = none } in
      if q'.running && not (is_empty q'.queue) then schedule_process q' else q'
