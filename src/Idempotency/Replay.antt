-- ===== src/Idempotency/Replay.antt =====
-- `runOrCache` called twice in a row: replays, conflicts, expiry and retries.
use nest_base.Base.{
  ℕ, ◌+◌, ◌≤◌, ◌<◌, String, ◌≡◌, ◌≢◌, refl, sym, ap, List, [], ◌∷◌, false, true, Option, none, some,
  arith, eq_iff, eq_refl,
}
use nest_base.Base.Dict.{get, get-put}
use nest_base.Idempotency.{
  Platform, Input, IdempotencyRecord, Response, Handled, responds, throws, resolved, conflict,
  thrown, ends, runs, Service, contains, add, delete, scoped_key, request_hash, decide, save,
  release, run_or_cache,
}

-- Nothing usable is stored under the key at `now`.
abbrev pub IsMiss : Option IdempotencyRecord → ℕ → Type 0
IsMiss none now = Unit
IsMiss (some r) now = r.expires_at ≤ now

module _ (pf : Platform) (ttl : ℕ) where
  -- The state in which a handler runs.
  abbrev entered : Input → Service → Service
  entered a s = record s { inflight = add (scoped_key pf ttl a) s.inflight }

  decide-miss :
      (a : Input) (e : Option IdempotencyRecord) (now : ℕ) (s : Service)
      → IsMiss e now
      → contains (scoped_key pf ttl a) s.inflight ≡ false
      → decide pf ttl a e now s ≡ (runs, entered a s)
  unfolding decide
  decide-miss a none now s miss free = rw free
  decide-miss a (some r) now s miss free = ground arith

  decide-hit :
      (b : Input) (e : IdempotencyRecord) (later : ℕ) (s : Service)
      → later < e.expires_at
      → e.request_hash ≡ request_hash pf ttl b
      → decide pf ttl b (some e) later s
        ≡ (ends (resolved (record { status = e.status; body = e.body }) true), s)
  unfolding decide
  decide-hit b e later s early same = ground (arith, eq_iff e.request_hash (request_hash pf ttl b))

  decide-conflict :
      (b : Input) (e : IdempotencyRecord) (later : ℕ) (s : Service)
      → later < e.expires_at
      → e.request_hash ≢ request_hash pf ttl b
      → decide pf ttl b (some e) later s ≡ (ends (conflict b.key), s)
  unfolding decide
  decide-conflict b e later s early differs =
      ground (arith, eq_iff e.request_hash (request_hash pf ttl b))

  -- What a call leaves behind whose handler responded.
  abbrev settled : Input → ℕ → Response → Service → Service
  settled a now r s = release pf ttl a (save pf ttl a now r (entered a s))

  abbrev saved : Input → ℕ → Response → IdempotencyRecord
  saved a now r = record {
    key = scoped_key pf ttl a;
    user_id = a.user_id;
    request_hash = request_hash pf ttl a;
    status = r.status;
    body = r.body;
    expires_at = now + ttl;
  }

  run_or_cache-miss :
      (a : Input) (now : ℕ) (r : Response) (s : Service)
      → IsMiss (get (scoped_key pf ttl a) s.store) now
      → contains (scoped_key pf ttl a) s.inflight ≡ false
      → run_or_cache pf ttl a now (responds r) s ≡ (resolved r false, settled a now r s)
  unfolding run_or_cache
  run_or_cache-miss a now r s miss free =
      rw (decide-miss a (get (scoped_key pf ttl a) s.store) now s miss free, run_or_cache)

  get-settled :
      (a : Input) (now : ℕ) (r : Response) (s : Service)
      → get (scoped_key pf ttl a) (settled a now r s).store ≡ some (saved a now r)
  unfolding release save
  get-settled a now r s = simp (get-put, eq_refl)

  -- A call whose key holds no live record and is not in flight runs its handler. From then on, and
  -- until `ttl` milliseconds after the first call's clock reading, each call with the same key and
  -- the same request hash gets the first response back as a replay, whatever its own handler would
  -- do, and changes nothing.
  pub run_or_cache-replay :
      (a b : Input) (now later : ℕ) (r : Response) (h : Handled) (s : Service)
      → IsMiss (get (scoped_key pf ttl a) s.store) now
      → contains (scoped_key pf ttl a) s.inflight ≡ false
      → scoped_key pf ttl b ≡ scoped_key pf ttl a
      → request_hash pf ttl b ≡ request_hash pf ttl a
      → later < now + ttl
      → ((run_or_cache pf ttl a now (responds r) s).0 ≡ resolved r false)
        × (run_or_cache pf ttl b later h (run_or_cache pf ttl a now (responds r) s).1
            ≡ (resolved r true, (run_or_cache pf ttl a now (responds r) s).1))
  run_or_cache-replay a b now later r h s miss free key hash early =
      rw (run_or_cache-miss a now r s miss free) (
        refl,
        unfold run_or_cache in
            rw (
              key,
              get-settled a now r s,
              decide-hit b (saved a now r) later (settled a now r s) early (sym hash),
            ),
      )

  -- The same key with another request hash is a conflict for as long, and changes nothing.
  pub run_or_cache-conflict :
      (a b : Input) (now later : ℕ) (r : Response) (h : Handled) (s : Service)
      → IsMiss (get (scoped_key pf ttl a) s.store) now
      → contains (scoped_key pf ttl a) s.inflight ≡ false
      → scoped_key pf ttl b ≡ scoped_key pf ttl a
      → request_hash pf ttl b ≢ request_hash pf ttl a
      → later < now + ttl
      → run_or_cache pf ttl b later h (run_or_cache pf ttl a now (responds r) s).1
        ≡ (conflict b.key, (run_or_cache pf ttl a now (responds r) s).1)
  run_or_cache-conflict a b now later r h s miss free key hash early =
      rw (run_or_cache-miss a now r s miss free) (
        unfold run_or_cache in
        rw (
          key,
          get-settled a now r s,
          decide-conflict b (saved a now r) later (settled a now r s) early (λ e. hash (sym e)),
        ))

  contains-delete : (k : String) (ks : List String) → contains k (delete k ks) ≡ false
  contains-delete k [] = refl
  contains-delete k (j ∷ ks) = ground (arith, contains-delete k ks)

  failed-eq :
      (a : Input) (now : ℕ) (message : String) (s : Service)
      → IsMiss (get (scoped_key pf ttl a) s.store) now
      → contains (scoped_key pf ttl a) s.inflight ≡ false
      → run_or_cache pf ttl a now (throws message) s
        ≡ (thrown message, release pf ttl a (entered a s))
  unfolding run_or_cache
  failed-eq a now message s miss free =
      rw (decide-miss a (get (scoped_key pf ttl a) s.store) now s miss free, run_or_cache)

  IsMiss-later : (e : Option IdempotencyRecord) (n m : ℕ) → IsMiss e n → n ≤ m → IsMiss e m
  IsMiss-later none n m h le = tt
  IsMiss-later (some r) n m h le = omega arith

  -- A handler that throws leaves the store as it was and its key free, so a call that follows with
  -- the same key runs its own handler.
  pub run_or_cache-throws :
      (a b : Input) (now later : ℕ) (message : String) (r : Response) (s : Service)
      → IsMiss (get (scoped_key pf ttl a) s.store) now
      → contains (scoped_key pf ttl a) s.inflight ≡ false
      → scoped_key pf ttl b ≡ scoped_key pf ttl a
      → now ≤ later
      → ((run_or_cache pf ttl a now (throws message) s).0 ≡ thrown message)
        × ((run_or_cache pf ttl a now (throws message) s).1.store ≡ s.store)
        × ((run_or_cache pf ttl b later
              (responds r)
              (run_or_cache pf ttl a now (throws message) s).1).0
            ≡ resolved r false)
  run_or_cache-throws a b now later message r s miss free key order =
      rw (failed-eq a now message s miss free) (
        refl,
        unfold release in refl,
        ap (λ p. p.0)
            (run_or_cache-miss b later r (release pf ttl a (entered a s))
              (unfold release in
                rw key (IsMiss-later (get (scoped_key pf ttl a) s.store) now later miss order))
              (unfold release in
                rw key
                  (contains-delete (scoped_key pf ttl a) (add (scoped_key pf ttl a) s.inflight)))),
      )
