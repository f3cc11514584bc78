-- ===== src/Idempotency/Cleanup.antt =====
-- Pruning the store (`deleteOlderThan`) against the calls that follow.
use nest_base.Base.{
  ℕ, ◌≤◌, String, ◌≡◌, refl, Option, none, some, List, [], ◌∷◌, arith, eq_iff, ltb, if◌then◌else◌,
}
use nest_base.Base.Dict.{Dict, get, put, get-put}
use nest_base.Idempotency.{
  Platform, Input, IdempotencyRecord, Handled, responds, throws, after_decision, Service,
  scoped_key, decide, run_or_cache, delete_older_than,
}

-- A `Map` holds each key once.
abbrev pub HasDistinctKeys : Dict IdempotencyRecord → Type 0
HasDistinctKeys [] = Unit
HasDistinctKeys ((k, r) ∷ m) = (get k m ≡ none) × HasDistinctKeys m

HasDistinctKeys-put :
    (k : String) (r : IdempotencyRecord) (m : Dict IdempotencyRecord)
    → HasDistinctKeys m
    → HasDistinctKeys (put k r m)
unfolding put get
HasDistinctKeys-put k r [] h = (refl, tt)
HasDistinctKeys-put k r ((j, q) ∷ m) h =
    ground (arith, eq_iff j k, eq_iff k j, get-put k j r m, HasDistinctKeys-put k r m h.1)

unless_older : ℕ → Option IdempotencyRecord → Option IdempotencyRecord
unless_older cutoff none = none
unless_older cutoff (some r) = if ltb r.expires_at cutoff then none else some r

get-delete_older_than :
    (k : String) (cutoff : ℕ) (m : Dict IdempotencyRecord)
    → HasDistinctKeys m
    → get k (delete_older_than cutoff m) ≡ unless_older cutoff (get k m)
unfolding get delete_older_than unless_older
get-delete_older_than k cutoff [] h = refl
get-delete_older_than k cutoff ((j, r) ∷ m) h =
    ground (arith, eq_iff j k, get-delete_older_than k cutoff m h.1)

module _ (pf : Platform) (ttl cutoff now : ℕ) (a : Input) (le : cutoff ≤ now) where
  outcome_unless_older :
      (e : Option IdempotencyRecord) (h : Handled) (m m' : Dict IdempotencyRecord)
      (ks : List String)
      → (after_decision pf ttl a now h
          (decide pf ttl a (unless_older cutoff e) now (record { store = m'; inflight = ks }))).0
        ≡ (after_decision pf ttl a now h
            (decide pf ttl a e now (record { store = m; inflight = ks }))).0
  unfolding run_or_cache unless_older
  outcome_unless_older none (responds r) m m' ks = ground arith
  outcome_unless_older none (throws t) m m' ks = ground arith
  outcome_unless_older (some e) (responds r) m m' ks = ground arith
  outcome_unless_older (some e) (throws t) m m' ks = ground arith

-- Pruning what expired before `cutoff` shows in no call that reads its clock at `cutoff` or later:
-- the call ends in the same way.
pub run_or_cache-delete_older_than :
    (pf : Platform) (ttl cutoff now : ℕ) (a : Input) (h : Handled) (s : Service)
    → HasDistinctKeys s.store
    → cutoff ≤ now
    → (run_or_cache pf ttl a now h (record s { store = delete_older_than cutoff s.store })).0
      ≡ (run_or_cache pf ttl a now h s).0
unfolding run_or_cache
run_or_cache-delete_older_than pf ttl cutoff now a h s distinct le =
    rw (get-delete_older_than (scoped_key pf ttl a) cutoff s.store distinct) (
      outcome_unless_older pf ttl cutoff now a le (get (scoped_key pf ttl a) s.store) h s.store
        (delete_older_than cutoff s.store) s.inflight)
