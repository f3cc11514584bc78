-- ===== src/Jobs/History.antt =====
-- `listJobs` of core/jobs/job-queue.ts, and what `retry` adds to the history.
use nest_base.Base.{
  ℕ, zero, suc, ◌+◌, String, Bool, true, false, not, ◌&&◌, ◌||◌, ◌≡◌, ◌≢◌, refl, ap, ◌∙◌, Option,
  none, some, List, [], ◌∷◌, ◌++◌, take, leb, arith, eq_iff, eq_refl, str_eq, if◌then◌else◌,
  Bool-cases, inl, inr,
}
use nest_base.Base.Dict.{Dict, get, get-put}
use nest_base.Jobs.Queue.{
  JobState, JobRecord, JobQueue, queued, has_handler, new_record, added, enqueue_internal, retry_of,
  retry_job, schedule_process,
}

abbrev pub same_state : JobState → JobState → Bool
same_state JobState.created JobState.created = true
same_state JobState.active JobState.active = true
same_state JobState.completed JobState.completed = true
same_state JobState.failed JobState.failed = true
same_state JobState.cancelled JobState.cancelled = true
same_state JobState.retry JobState.retry = true
same_state _ _ = false

pub record ListJobsOptions : Type 0 where
  pub state : Option JobState
  pub name : Option String
  pub limit : Option ℕ

-- out.length >= limit
abbrev pub is_full : Option ℕ → ℕ → Bool
is_full none n = false
is_full (some limit) n = leb limit n

abbrev pub reverse : List String → List String
reverse [] = []
reverse (x ∷ xs) = reverse xs ++ (x ∷ [])

module _ {P : Type 0} where
  -- state && record.state !== state, and the same for the name: an empty name is no filter
  abbrev pub matches_state : Option JobState → JobRecord P → Bool
  matches_state none r = true
  matches_state (some state) r = same_state r.state state

  abbrev pub matches_name : Option String → JobRecord P → Bool
  matches_name none r = true
  matches_name (some name) r = str_eq name "" || str_eq r.name name

  abbrev pub wanted : ListJobsOptions → JobRecord P → Bool
  wanted options r = matches_state options.state r && matches_name options.name r

  -- One iteration: what the loop gives if it skips the id, and if it goes on with the record taken.
  unfoldable pub list_one :
      ListJobsOptions
      → (full : Bool) → Option (JobRecord P)
      → (skip rest : List (JobRecord P)) → List (JobRecord P)
  list_one options full none skip rest = skip
  list_one options full (some r) skip rest =
      if not (wanted options r) then skip else if full then r ∷ [] else r ∷ rest

  -- The loop, over the ids newest first, with `n` records in `out`.
  unfoldable pub list_from :
      ListJobsOptions → Dict (JobRecord P) → List String → (n : ℕ) → List (JobRecord P)
  unfolding list_one
  list_from options history [] n = []
  list_from options history (id ∷ ids) n =
      let skip = list_from options history ids n in
      let rest = list_from options history ids (n + 1) in
      list_one options (is_full options.limit (n + 1)) (get id history) skip rest

  unfoldable pub list_jobs : ListJobsOptions → JobQueue P → List (JobRecord P)
  unfolding list_from
  list_jobs options q = list_from options q.history (reverse q.history_order) 0

  -- The records of these ids that the options ask for.
  abbrev pub matching_one :
      ListJobsOptions → Option (JobRecord P) → List (JobRecord P) → List (JobRecord P)
  matching_one options none later = later
  matching_one options (some r) later = if wanted options r then r ∷ later else later

  abbrev pub matching : ListJobsOptions → Dict (JobRecord P) → List String → List (JobRecord P)
  matching options history [] = []
  matching options history (id ∷ ids) =
      matching_one options (get id history) (matching options history ids)

  list_one-full :
      (options : ListJobsOptions) (o : Option (JobRecord P)) (skip rest later : List (JobRecord P))
      → skip ≡ take 1 later
      → list_one options true o skip rest ≡ take 1 (matching_one options o later)
  unfolding list_one
  list_one-full options none skip rest later h = h
  list_one-full options (some r) skip rest later h = elim (Bool-cases (wanted options r)) [
    | inl e ↦ rw e refl
    | inr e ↦ rw e h
  ]

  list_one-room :
      (options : ListJobsOptions) (limit : ℕ) (o : Option (JobRecord P))
      (skip rest later : List (JobRecord P))
      → skip ≡ take (suc (suc limit)) later
      → rest ≡ take (suc limit) later
      → list_one options false o skip rest ≡ take (suc (suc limit)) (matching_one options o later)
  unfolding list_one
  list_one-room options limit none skip rest later h k = h
  list_one-room options limit (some r) skip rest later h k = elim (Bool-cases (wanted options r)) [
    | inl e ↦ rw e (ap (λ rs. r ∷ rs) k)
    | inr e ↦ rw e h
  ]

  list_from-take :
      (options : ListJobsOptions) (limit n : ℕ) (history : Dict (JobRecord P)) (ids : List String)
      → options.limit ≡ some (n + suc limit)
      → list_from options history ids n ≡ take (suc limit) (matching options history ids)
  unfolding list_from
  list_from-take options limit n history [] h = refl
  list_from-take options zero n history (id ∷ ids) h =
      let full : is_full options.limit (n + 1) ≡ true = rw h (ground arith) in
      rw full (
        list_one-full options (get id history) (list_from options history ids n)
          (list_from options history ids (n + 1)) (matching options history ids)
          (list_from-take options zero n history ids h))
  list_from-take options (suc limit) n history (id ∷ ids) h =
      let room : is_full options.limit (n + 1) ≡ false = rw h (ground arith) in
      rw room (
        list_one-room options limit (get id history) (list_from options history ids n)
          (list_from options history ids (n + 1)) (matching options history ids)
          (list_from-take options (suc limit) n history ids h)
          (list_from-take options limit (n + 1) history ids (h ∙ ap some (omega arith))))

  -- With a limit of at least 1, the list is the first `limit` of the records that the options ask for,
  -- newest first.
  pub list_jobs-take :
      (options : ListJobsOptions) (limit : ℕ) (q : JobQueue P)
      → options.limit ≡ some (suc limit)
      → list_jobs options q
        ≡ take (suc limit) (matching options q.history (reverse q.history_order))
  unfolding list_jobs
  list_jobs-take options limit q h =
      list_from-take options limit 0 q.history (reverse q.history_order) (h ∙ ap some (omega arith))

  -- A queue whose worker is told, if it runs.
  abbrev told : JobQueue P → JobQueue P
  told q = if q.running then schedule_process q else q

  told-same : (q : JobQueue P) → ((told q).history ≡ q.history) × ((told q).queue ≡ q.queue)
  told-same q = ground arith

  retry_job-told :
      (id new_id : String) (now : ℕ) (r : JobRecord P) (q : JobQueue P)
      → get id q.history ≡ some r
      → r.state ≡ JobState.failed
      → has_handler r.name q.handlers ≡ true
      → retry_job id new_id now q
        ≡ (queued new_id, told (added (new_record new_id r.name r.payload (r.attempt + 1) now) q))
  unfolding retry_job retry_of enqueue_internal
  retry_job-told id new_id now r q found is_failed handled = rw (found, is_failed, handled) refl

  -- A failed job whose handler is there is queued again under the new id, as a record with the same
  -- name and payload, no result yet and one attempt more. The failed record stays as it was.
  pub retry_job-failed :
      (id new_id : String) (now : ℕ) (r : JobRecord P) (q : JobQueue P)
      → get id q.history ≡ some r
      → r.state ≡ JobState.failed
      → has_handler r.name q.handlers ≡ true
      → new_id ≢ id
      → ((retry_job id new_id now q).0 ≡ queued new_id)
        × (get new_id (retry_job id new_id now q).1.history
            ≡ some (new_record new_id r.name r.payload (r.attempt + 1) now))
        × (get id (retry_job id new_id now q).1.history ≡ some r)
        × ((retry_job id new_id now q).1.queue ≡ q.queue ++ (new_id ∷ []))
  retry_job-failed id new_id now r q found is_failed handled fresh =
      let again = new_record new_id r.name r.payload (r.attempt + 1) now in
      let (history, queue) = told-same (added again q) in
      rw (retry_job-told id new_id now r q found is_failed handled) (
        refl,
        rw history (simp (get-put, eq_refl)),
        rw history (ground (arith, get-put new_id id again q.history, eq_iff new_id id)),
        queue,
      )
