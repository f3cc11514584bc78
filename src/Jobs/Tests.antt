-- ===== src/Jobs/Tests.antt =====
-- Runs of the job queue, and its theorems at concrete inputs.
use mathlib.Core.Bool.{false≢true}
use nest_base.Base.{String, true, ◌≡◌, refl, some, none, [], ◌∷◌, take, eq_iff}
use nest_base.Base.Dict.{get}
use nest_base.Jobs.Queue.{
  JobRecord, JobQueue, queued, throws, register, new_record, settled, enqueue, retry_job, start,
  finish_turn,
}
use nest_base.Jobs.Steps.{
  empty_queue, registers, enqueues, starts, Reachable, initial, next, IsSound,
}
use nest_base.Jobs.Soundness.{Reachable-IsSound}
use nest_base.Jobs.Result.{job_result, reported, job_result-finish_turn}
use nest_base.Jobs.History.{
  ListJobsOptions, reverse, matching, list_jobs, list_from, list_one, list_jobs-take,
  retry_job-failed,
}

-- A queue that knows the job "mail", and runs.
abbrev ready : JobQueue String
ready = start (register "mail" empty_queue)

abbrev two_waiting : JobQueue String
two_waiting = (enqueue "b" "mail" "y" 6 (enqueue "a" "mail" "x" 5 ready).1).1

two_waiting-Reachable : Reachable two_waiting
two_waiting-Reachable =
    next (next (next (next initial (registers "mail")) starts) (enqueues "a" "mail" "x" 5))
      (enqueues "b" "mail" "y" 6)

Reachable-IsSound_example : IsSound two_waiting
Reachable-IsSound_example = Reachable-IsSound two_waiting two_waiting-Reachable

abbrev broken : JobRecord String
broken = settled 8 (throws "no route" none) (new_record "a" "mail" "x" 1 5)

abbrev after_failure : JobQueue String
after_failure = record {
  handlers = "mail" ∷ [];
  queue = "b" ∷ [];
  history = ("a", broken) ∷ ("b", new_record "b" "mail" "y" 1 6) ∷ [];
  history_order = "a" ∷ "b" ∷ [];
  running = true;
  turns = 2;
  current = none;
}

retry_job-failed_example :
    ((retry_job "a" "c" 9 after_failure).0 ≡ queued "c")
    × (get "c" (retry_job "a" "c" 9 after_failure).1.history ≡ some (new_record "c" "mail" "x" 2 9))
    × (get "a" (retry_job "a" "c" 9 after_failure).1.history ≡ some broken)
    × ((retry_job "a" "c" 9 after_failure).1.queue ≡ "b" ∷ "c" ∷ [])
unfolding get
retry_job-failed_example =
    retry_job-failed "a" "c" 9 broken after_failure refl refl refl
      (λ e. false≢true ((eq_iff "c" "a").1 e))

abbrev newest : ListJobsOptions
newest = record { state = none; name = some "mail"; limit = some 1 }

list_jobs-take_example :
    list_jobs newest after_failure
    ≡ take 1 (matching newest after_failure.history (reverse after_failure.history_order))
list_jobs-take_example = list_jobs-take newest 0 after_failure refl

-- The limit is read after a record has been taken: a limit of 0 gives one.
limit_zero :
    list_jobs (record newest { limit = some 0 }) after_failure ≡ new_record "b" "mail" "y" 1 6 ∷ []
unfolding list_jobs list_from list_one get
limit_zero = refl

job_result-finish_turn_example :
    job_result "a"
      (finish_turn 8 (throws "no route" none) (new_record "a" "mail" "x" 1 5) two_waiting)
    ≡ some (reported (throws "no route" none))
job_result-finish_turn_example =
    job_result-finish_turn 8 (throws "no route" none) (new_record "a" "mail" "x" 1 5) two_waiting
