-- ===== src/Jobs/Result.antt =====
-- `jobResult` of core/jobs/job-queue.ts: what a caller learns of a job.
use nest_base.Base.{
  ℕ, String, ◌≡◌, refl, ap, ◌∙◌, Option, none, some, str_eq, if◌then◌else◌, arith, eq_refl,
}
use nest_base.Base.Dict.{get, get-put}
use nest_base.Jobs.Queue.{
  JobState, JobRecord, JobQueue, Handled, returns, throws, stored, settled, finish_turn,
}

-- A stack that is none is the one that the new Error object has of itself.
pub data JobResult : Type 0 where
  pending : JobResult
  completed : JobResult
  failed : (message : String) (stack : Option String) → JobResult

-- record.errorMessage ?? "job failed"
abbrev pub message_of : Option String → String
message_of none = "job failed"
message_of (some message) = message

-- if (record.errorStack): an empty stack is none
abbrev pub stack_of : Option String → Option String
stack_of none = none
stack_of (some stack) = if str_eq stack "" then none else some stack

abbrev pub reported : Handled → JobResult
reported returns = completed
reported (throws message stack) = failed message (stack_of stack)

module _ {P : Type 0} where
  abbrev pub result_in : JobState → JobRecord P → JobResult
  result_in JobState.completed r = completed
  result_in JobState.failed r = failed (message_of r.error_message) (stack_of r.error_stack)
  result_in _ r = pending

  abbrev pub result_of : Option (JobRecord P) → Option JobResult
  result_of none = none
  result_of (some r) = some (result_in r.state r)

  unfoldable pub job_result : String → JobQueue P → Option JobResult
  job_result id q = result_of (get id q.history)

  finish_turn-history :
      (now : ℕ) (handled : Handled) (r : JobRecord P) (q : JobQueue P)
      → (finish_turn now handled r q).history ≡ (stored (settled now handled r) q).history
  unfolding finish_turn
  finish_turn-history now handled r q = ground arith

  result_of-settled :
      (now : ℕ) (handled : Handled) (r : JobRecord P) (q : JobQueue P)
      → result_of (get r.id (stored (settled now handled r) q).history) ≡ some (reported handled)
  result_of-settled now returns r q =
      ap result_of (get-put r.id r.id (settled now returns r) q.history) ∙ rw (eq_refl r.id) refl
  result_of-settled now (throws message stack) r q =
      ap result_of (get-put r.id r.id (settled now (throws message stack) r) q.history)
      ∙ rw (eq_refl r.id) refl

  -- Once a job's turn has ended, its result is that of its handler: completed if it returned, and
  -- failed with its message and stack if it threw, whatever else the queue holds.
  pub job_result-finish_turn :
      (now : ℕ) (handled : Handled) (r : JobRecord P) (q : JobQueue P)
      → job_result r.id (finish_turn now handled r q) ≡ some (reported handled)
  unfolding job_result
  job_result-finish_turn now handled r q =
      ap (λ h. result_of (get r.id h)) (finish_turn-history now handled r q)
      ∙ result_of-settled now handled r q
