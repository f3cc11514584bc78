-- ===== src/Idempotency.antt =====
-- core/idempotency/idempotency.service.ts: the request hash, the scoped key, and `runOrCache`, cut
-- at its awaits. The store is the `Map` of idempotency-cleanup.ts. Times are milliseconds.
mod Hash
pub mod Scope
pub mod KeyOrder
pub mod Replay
pub mod Exclusion
pub mod Cleanup
mod Tests
pub use Hash.{
  Scalar, null, bool, num, str, Json, scalar, arr, obj, Items, nil, cons, Fields, end, field,
}
pub use Hash.{Platform, Request, braced}
unfoldable pub use Hash.{
  join, insert_entry, sort_entries, stable_stringify, stringify_items, stringify_fields,
  compute_request_hash,
}
use nest_base.Base.{
  ℕ, ◌+◌, String, Bool, true, false, Option, none, some, List, [], ◌∷◌, ltb, str_eq, not, filter,
  any, if◌then◌else◌,
}
use nest_base.Base.Dict.{Dict, get, put}
use Prim.Native.String

-- `${userId ?? "anon"}::${key}`
unfoldable pub scope_idempotency_key : String → Option String → String
scope_idempotency_key key none = String.◌++◌ "anon" (String.◌++◌ "::" key)
scope_idempotency_key key (some user_id) = String.◌++◌ user_id (String.◌++◌ "::" key)

pub record Response : Type 0 where
  pub status : ℕ
  pub body : Json

-- The service writes `userId` into the row, and does not read it.
pub record IdempotencyRecord : Type 0 where
  pub key : String
  pub user_id : Option String
  pub request_hash : String
  pub status : ℕ
  pub body : Json
  pub expires_at : ℕ

pub record Input : Type 0 where
  pub key : String
  pub request : Request
  pub user_id : Option String

-- How a call ends: a response with its `replayed` flag, or one of three exceptions.
pub data Outcome : Type 0 where
  resolved : Response → (replayed : Bool) → Outcome
  conflict in_progress : (key : String) → Outcome
  thrown : (message : String) → Outcome

-- What the handler does: it responds, or it throws.
pub data Handled : Type 0 where
  responds : Response → Handled
  throws : (message : String) → Handled

pub record Service : Type 0 where
  pub store : Dict IdempotencyRecord
  pub inflight : List String

-- Set.prototype.has, add and delete
abbrev pub contains : String → List String → Bool
contains k ks = any (λ j. str_eq j k) ks

abbrev pub add : String → List String → List String
add k ks = if contains k ks then ks else k ∷ ks

abbrev pub delete : String → List String → List String
delete k ks = filter (λ j. not (str_eq j k)) ks

-- `deleteOlderThan` of the in-memory store
unfoldable pub delete_older_than : ℕ → Dict IdempotencyRecord → Dict IdempotencyRecord
delete_older_than cutoff rows = filter (λ row. not (ltb row.1.expires_at cutoff)) rows

pub data Decision : Type 0 where
  ends : Outcome → Decision
  runs : Decision

module _ (pf : Platform) (ttl_ms : ℕ) (input : Input) where
  abbrev pub request_hash : String
  request_hash = compute_request_hash pf input.request

  abbrev pub scoped_key : String
  scoped_key = scope_idempotency_key input.key input.user_id

  -- `this.store.get(scopedKey)`
  abbrev pub fetch : Service → Option IdempotencyRecord
  fetch s = get scoped_key s.store

  claim : Service → Decision × Service
  claim s =
      if contains scoped_key s.inflight
      then (ends (in_progress input.key), s)
      else (runs, record s { inflight = add scoped_key s.inflight })

  -- From the answer of the store to the call of the handler: no await stands between.
  unfoldable pub decide : Option IdempotencyRecord → (now : ℕ) → Service → Decision × Service
  unfolding claim
  decide none now s = claim s
  decide (some existing) now s =
      if ltb now existing.expires_at
      then (if str_eq existing.request_hash request_hash
          then (ends (resolved (record { status = existing.status; body = existing.body }) true), s)
          else (ends (conflict input.key), s))
      else claim s

  -- `this.store.put(…)` once the handler has responded
  unfoldable pub save : (now : ℕ) → Response → Service → Service
  save now response s = record s {
    store =
        put scoped_key
          (record {
            key = scoped_key;
            user_id = input.user_id;
            request_hash = request_hash;
            status = response.status;
            body = response.body;
            expires_at = now + ttl_ms;
          })
          s.store;
  }

  -- the `finally` block
  unfoldable pub release : Service → Service
  release s = record s { inflight = delete scoped_key s.inflight }

  finish : (now : ℕ) → Handled → Service → Outcome × Service
  unfolding save release
  finish now (responds response) s = (resolved response false, release (save now response s))
  finish now (throws message) s = (thrown message, release s)

  after_decision : (now : ℕ) → Handled → Decision × Service → Outcome × Service
  unfolding finish
  after_decision now handled (ends outcome, s) = (outcome, s)
  after_decision now handled (runs, s) = finish now handled s

  -- The whole call, where no other call runs between its awaits.
  unfoldable pub run_or_cache : (now : ℕ) → Handled → Service → Outcome × Service
  unfolding decide after_decision
  run_or_cache now handled s = after_decision now handled (decide (fetch s) now s)
