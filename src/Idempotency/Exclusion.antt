-- ===== src/Idempotency/Exclusion.antt =====
-- Calls of `runOrCache` that interleave at their awaits, for any number of calls over one service.
use nest_base.Base.{
  ℕ, String, ◌≡◌, ◌≢◌, refl, ◌∙◌, ◌&&◌, Bool, true, false, Option, none, some, List, [], ◌∷◌, arith,
  eq_iff, eq_refl, ◌==◌, if◌then◌else◌, ltb, str_eq, Bool-cases, inl, inr, ◌⊎◌,
}
use mathlib.Core.Path.{subst}
use nest_base.Base.Dict.{Dict, get}
use nest_base.Idempotency.{
  Platform, Input, IdempotencyRecord, Response, Outcome, resolved, conflict, in_progress, thrown,
  Decision, ends, runs, Service, contains, add, delete, delete_older_than, scoped_key, request_hash,
  fetch, decide, save, release,
}

-- Where a call stands: before its first await's answer, with the answer of the store, in the
-- handler, after the store's write and before the `finally` block, or at its end.
pub data Phase : Type 0 where
  idle : Phase
  fetched : Option IdempotencyRecord → Phase
  running : (now : ℕ) → Phase
  stored : Response → Phase
  done : Outcome → Phase

abbrev pub holds : Phase → Bool
holds (running _) = true
holds (stored _) = true
holds _ = false

pub record State : Type 0 where
  pub service : Service
  pub phase : ℕ → Phase

abbrev pub update : (ℕ → Phase) → ℕ → Phase → ℕ → Phase
update f i p j = if i == j then p else f j

abbrev pub after : Decision → (now : ℕ) → Phase
after (ends outcome) now = done outcome
after runs now = running now

contains-add :
    (k j : String) (ks : List String)
    → contains j (add k ks) ≡ (if str_eq k j then true else contains j ks)
contains-add k j ks = elim (Bool-cases (str_eq k j)) [
  | inl same ↦ let e = (eq_iff k j).0 same in rw same (rw e (ground (arith, eq_refl j)))
  | inr other ↦ ground arith
]

contains-delete_ne :
    (k j : String) (ks : List String) → k ≢ j → contains j (delete k ks) ≡ contains j ks
contains-delete_ne k j [] ne = refl
contains-delete_ne k j (i ∷ ks) ne =
    ground (arith, contains-delete_ne k j ks ne, eq_iff i k, eq_iff i j)

module _ (pf : Platform) (ttl : ℕ) (input : ℕ → Input) where
  abbrev pub key : ℕ → String
  key i = scoped_key pf ttl (input i)

  -- One step of one call. The clock is read again by each call, and the store may be pruned.
  pub data Step (σ : State) : State → Type 0 where
    fetch_step :
        (i : ℕ)
        → σ.phase i ≡ idle
        → Step σ
            (record σ { phase = update σ.phase i (fetched (fetch pf ttl (input i) σ.service)) })
    decide_step :
        (i now : ℕ) (e : Option IdempotencyRecord)
        → σ.phase i ≡ fetched e
        → Step σ (record {
          service = (decide pf ttl (input i) e now σ.service).1;
          phase = update σ.phase i (after (decide pf ttl (input i) e now σ.service).0 now);
        })
    save_step :
        (i now : ℕ) (r : Response)
        → σ.phase i ≡ running now
        → Step σ (record {
          service = save pf ttl (input i) now r σ.service;
          phase = update σ.phase i (stored r);
        })
    throw_step :
        (i now : ℕ) (message : String)
        → σ.phase i ≡ running now
        → Step σ (record {
          service = release pf ttl (input i) σ.service;
          phase = update σ.phase i (done (thrown message));
        })
    finally_step :
        (i : ℕ) (r : Response)
        → σ.phase i ≡ stored r
        → Step σ (record {
          service = release pf ttl (input i) σ.service;
          phase = update σ.phase i (done (resolved r false));
        })
    prune_step :
        (cutoff : ℕ)
        → Step σ (record σ {
          service = record σ.service { store = delete_older_than cutoff σ.service.store };
        })

  pub data Reach (σ : State) : State → Type 0 where
    here : Reach σ σ
    next : {τ υ : State} → Reach σ τ → Step τ υ → Reach σ υ

  -- Every call that runs its handler holds its key, and no two calls hold one key.
  pub record IsExclusive (σ : State) : Type 0 where
    pub held : (i : ℕ) → holds (σ.phase i) ≡ true → contains (key i) σ.service.inflight ≡ true
    pub unique :
        (i j : ℕ) → holds (σ.phase i) ≡ true → holds (σ.phase j) ≡ true → key i ≡ key j → i ≡ j

  abbrev state : Dict IdempotencyRecord → List String → (ℕ → Phase) → State
  state store inflight phase = record {
    service = record { store = store; inflight = inflight };
    phase = phase;
  }

  module _ (m m' : Dict IdempotencyRecord) (ks : List String) (f : ℕ → Phase) (i : ℕ) (p : Phase)
      (h : IsExclusive (state m ks f)) where
    -- A call that holds nothing moves on and holds nothing.
    idle_move : holds p ≡ false → IsExclusive (state m' ks (update f i p))
    idle_move e = record {
      held = λ j. ground (arith, h.held j);
      unique = λ j k. ground (arith, h.unique j k);
    }

    holder_move : holds (f i) ≡ true → IsExclusive (state m' ks (update f i p))
    holder_move e = record {
      held = λ j. ground (arith, h.held j, h.held i);
      unique = λ j k. ground (arith, h.unique j k);
    }

    enter_move :
        contains (key i) ks ≡ false → IsExclusive (state m' (add (key i) ks) (update f i p))
    enter_move free = record {
      held = λ j. ground (arith, h.held j, contains-add (key i) (key j) ks, eq_iff (key i) (key j));
      unique = λ j k. ground (arith, h.unique j k, h.held j, h.held k);
    }

    leave_move :
        holds (f i) ≡ true
        → holds p ≡ false
        → IsExclusive (state m' (delete (key i) ks) (update f i p))
    leave_move e e' = record {
      held = λ j. ground (arith, h.held j, h.unique i j, contains-delete_ne (key i) (key j) ks);
      unique = λ j k. ground (arith, h.unique j k);
    }

  decide-cases :
      (i now : ℕ) (e : Option IdempotencyRecord) (s : Service)
      → ((contains (key i) s.inflight ≡ false)
          × (decide pf ttl (input i) e now s
              ≡ (runs, record s { inflight = add (key i) s.inflight })))
        ⊎ ((o : Outcome) × (decide pf ttl (input i) e now s ≡ (ends o, s)))
  unfolding decide
  decide-cases i now none s = elim (Bool-cases (contains (key i) s.inflight)) [
    | inl taken ↦ inr (in_progress (input i).key, rw taken)
    | inr free ↦ inl (free, rw free)
  ]
  decide-cases i now (some r) s = elim (Bool-cases (ltb now r.expires_at)) [
    | inl live ↦ elim (Bool-cases (str_eq r.request_hash (request_hash pf ttl (input i)))) [
      | inl same ↦
          inr (resolved (record { status = r.status; body = r.body }) true, rw (live, same))
      | inr other ↦ inr (conflict (input i).key, rw (live, other))
    ]
    | inr expired ↦ elim (Bool-cases (contains (key i) s.inflight)) [
      | inl taken ↦ inr (in_progress (input i).key, rw (expired, taken))
      | inr free ↦ inl (free, rw (expired, free))
    ]
  ]

  Step-IsExclusive : {σ τ : State} → Step σ τ → IsExclusive σ → IsExclusive τ
  unfolding save release
  Step-IsExclusive {σ} (fetch_step i e) h =
      idle_move σ.service.store σ.service.store σ.service.inflight σ.phase i _ h refl
  Step-IsExclusive {σ} (decide_step i now e q) h = elim (decide-cases i now e σ.service) [
    | inl (free, runs_now) ↦ rw runs_now (
        enter_move σ.service.store σ.service.store σ.service.inflight σ.phase i (running now) h
          free)
    | inr (o, ends_now) ↦
        rw ends_now
          (idle_move σ.service.store σ.service.store σ.service.inflight σ.phase i (done o) h refl)
  ]
  Step-IsExclusive {σ} (save_step i now r q) h =
      holder_move σ.service.store _ σ.service.inflight σ.phase i (stored r) h (rw q)
  Step-IsExclusive {σ} (throw_step i now message q) h =
      leave_move σ.service.store _ σ.service.inflight σ.phase i _ h (rw q) refl
  Step-IsExclusive {σ} (finally_step i r q) h =
      leave_move σ.service.store _ σ.service.inflight σ.phase i _ h (rw q) refl
  Step-IsExclusive (prune_step cutoff) h = record { held = h.held; unique = h.unique }

  abbrev pub start : State
  start = record { service = record { store = []; inflight = [] }; phase = λ _. idle }

  start-IsExclusive : IsExclusive start
  start-IsExclusive = record { held = λ i e. cc; unique = λ i j e. cc }

  Reach-IsExclusive : {σ : State} → Reach start σ → IsExclusive σ
  Reach-IsExclusive here = start-IsExclusive
  Reach-IsExclusive (next r st) = Step-IsExclusive st (Reach-IsExclusive r)

  -- However the calls interleave, two different calls with the same scoped key never both stand
  -- between the start of their handler and the end of their `finally` block.
  pub handlers_exclude :
      {σ : State} (i j : ℕ)
      → Reach start σ
      → i ≢ j
      → key i ≡ key j
      → (holds (σ.phase i) && holds (σ.phase j)) ≡ false
  handlers_exclude {σ} i j r ne same = ground (arith, (Reach-IsExclusive r).unique i j)

  -- A call that found nothing, with its key free, runs to its end with no step of another call.
  solo :
      (i n : ℕ) (r : Response) {σ : State}
      → Reach start σ
      → σ.phase i ≡ fetched none
      → contains (key i) σ.service.inflight ≡ false
      → (τ : State) × Reach start τ
        × (τ.phase i ≡ done (resolved r false))
        × ((j : ℕ) → j ≢ i → τ.phase j ≡ σ.phase j)
        × (τ.service.inflight ≡ delete (key i) (add (key i) σ.service.inflight))
  solo i n r {σ} reached q free =
      let entered : Decision × Service =
        (runs, record σ.service { inflight = add (key i) σ.service.inflight }) in
      let opened : decide pf ttl (input i) none n σ.service ≡ entered = unfold decide in rw free in
      let step =
        subst (λ d. Step σ (record { service = d.1; phase = update σ.phase i (after d.0 n) }))
          opened (decide_step i n none q) in
      unfold save release in
      (
        _,
        next (next (next reached step) (save_step i n r (ground arith)))
            (finally_step i r (ground arith)),
        ground arith,
        (λ j ne. ground arith),
        refl,
      )

  -- The guard does not make the handler run once. Whatever the two inputs, equal ones included, and
  -- at any clock readings, two calls can both run their handlers to the end with neither a replay:
  -- the second read the store before the first wrote it, and met the guard after the first had left.
  pub handler_runs_twice :
      (n m : ℕ) (r q : Response)
      → (σ : State) × Reach start σ
        × (σ.phase 0 ≡ done (resolved r false))
        × (σ.phase 1 ≡ done (resolved q false))
  unfolding get
  handler_runs_twice n m r q =
      let reached = next (next here (fetch_step 0 refl)) (fetch_step 1 refl) in
      let (σ, first, done_0, kept, left) = solo 0 n r reached refl refl in
      let (τ, second, done_1, kept', _) =
        solo 1 m q first (kept 1 (omega arith)) (rw (left, eq_refl (key 0))) in
      (τ, second, kept' 0 (omega arith) ∙ done_0, done_1)
