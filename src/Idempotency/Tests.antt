-- ===== src/Idempotency/Tests.antt =====
-- Runs of the idempotency service, and its theorems at concrete inputs.
use Prim.Native.Char.{code}
use Prim.Native.String.{[] as empty, ◌∷◌ as push, ◌++◌}
use mathlib.Core.Bool.{false≢true}
use nest_base.Base.{
  ℕ, String, ◌≡◌, ◌≢◌, refl, Bool, true, false, Option, none, some, [], ◌∷◌, arith, ltb, ◌==◌,
  eq_iff, if◌then◌else◌, ◌&&◌,
}
use nest_base.Base.Dict.{get, put}
use nest_base.Idempotency.{
  Scalar, null, bool, num, str, Json, scalar, obj, end, field, decide, Platform, Input, Response,
  responds, throws, resolved, conflict, thrown, Service, scope_idempotency_key,
  compute_request_hash, run_or_cache, request_hash, delete_older_than,
}
use nest_base.Idempotency.Scope.{scope_idempotency_key-inj}
use nest_base.Idempotency.KeyOrder.{
  IsCollation, SameBody, same_obj, swapped, compute_request_hash-same,
}
use nest_base.Idempotency.Replay.{run_or_cache-replay, run_or_cache-conflict, run_or_cache-throws}
use nest_base.Idempotency.Cleanup.{run_or_cache-delete_older_than}
use nest_base.Idempotency.Exclusion.{
  State, Reach, here, next, fetch_step, decide_step, update, idle, fetched, running, start, holds,
  handlers_exclude, handler_runs_twice, done,
}

text_le : String → String → Bool
text_le empty t = true
text_le (push c s) empty = false
text_le (push c s) (push d t) =
    if ltb (code c) (code d) then true else (code c == code d) && text_le s t

text_le_total : (a b : String) → text_le a b ≡ false → text_le b a ≡ true
unfolding text_le
text_le_total empty b h = cc
text_le_total (push c s) empty h = refl
text_le_total (push c s) (push d t) h = ground (arith, text_le_total s t)

text_le_trans : (a b c : String) → text_le a b ≡ true → text_le b c ≡ true → text_le a c ≡ true
unfolding text_le
text_le_trans empty b c h k = refl
text_le_trans (push x s) empty c h k = cc
text_le_trans (push x s) (push y t) empty h k = cc
text_le_trans (push x s) (push y t) (push z u) h k = ground (arith, text_le_trans s t u)

write_scalar : Scalar → String
write_scalar null = "null"
write_scalar (bool true) = "true"
write_scalar (bool false) = "false"
write_scalar (num n) = if n == 1 then "1" else "2"
write_scalar (str s) = "'" ++ (s ++ "'")

abbrev plain : Platform
plain = record {
  sha256 = λ s. s;
  to_upper_case = λ s. s;
  json_stringify = write_scalar;
  locale_le = text_le;
}

plain-IsCollation : IsCollation plain
plain-IsCollation = record { total = text_le_total; trans = text_le_trans }

abbrev one : Json
one = scalar (num 1)

abbrev two : Json
two = scalar (num 2)

abbrev ab : Json
ab = obj (field "a" one (field "b" two end))

abbrev ba : Json
ba = obj (field "b" two (field "a" one end))

ab_same_ba : SameBody plain ab ba
unfolding text_le
ab_same_ba = same_obj (swapped "a" "b" one two end refl)

hash_of_ab :
    compute_request_hash plain (record { method = "POST"; path = "/x"; body = ba })
    ≡ "POST\n/x\n{'a':1,'b':2}"
unfolding compute_request_hash text_le write_scalar
hash_of_ab = refl

-- A platform that calls all keys equal, as `localeCompare` does with canonically equivalent ones.
abbrev tying : Platform
tying = record plain { locale_le = λ a b. true }

-- There the order of two such keys changes the hash.
tie_changes_hash :
    (compute_request_hash tying (record { method = "POST"; path = "/x"; body = ab })
      ≡ "POST\n/x\n{'a':1,'b':2}")
    × (compute_request_hash tying (record { method = "POST"; path = "/x"; body = ba })
        ≡ "POST\n/x\n{'b':2,'a':1}")
unfolding compute_request_hash write_scalar
tie_changes_hash = (refl, refl)

compute_request_hash-same_example :
    compute_request_hash plain (record { method = "POST"; path = "/x"; body = ab })
    ≡ compute_request_hash plain (record { method = "POST"; path = "/x"; body = ba })
compute_request_hash-same_example =
    compute_request_hash-same plain plain-IsCollation "POST" "/x" ab_same_ba

scope_idempotency_key-inj_example :
    (◌≡◌ {A = Option String} (some "u1") (some "u1")) × (◌≡◌ {A = String} "k" "k")
scope_idempotency_key-inj_example =
    scope_idempotency_key-inj (some "u1") (some "u1") "k" "k"
      (omega arith, λ e. false≢true ((eq_iff "u1" "anon").1 e))
      (omega arith, λ e. false≢true ((eq_iff "u1" "anon").1 e)) refl

-- A user whose id is the word "anon" shares its keys with callers that have no user.
anon_collides : scope_idempotency_key "k" (some "anon") ≡ scope_idempotency_key "k" none
unfolding scope_idempotency_key
anon_collides = refl

abbrev call : Input
call = record {
  key = "k";
  request = record { method = "POST"; path = "/x"; body = ab };
  user_id = some "u1";
}

abbrev other_call : Input
other_call = record {
  key = "k";
  request = record { method = "POST"; path = "/x"; body = one };
  user_id = some "u1";
}

abbrev created : Response
created = record { status = 201; body = two }

abbrev fresh : Service
fresh = record { store = []; inflight = [] }

run_or_cache-replay_example :
    ((run_or_cache plain 100 call 5 (responds created) fresh).0 ≡ resolved created false)
    × (run_or_cache plain 100 call 50
          (throws "never called")
          (run_or_cache plain 100 call 5 (responds created) fresh).1
        ≡ (resolved created true, (run_or_cache plain 100 call 5 (responds created) fresh).1))
unfolding get
run_or_cache-replay_example =
    run_or_cache-replay plain 100 call call 5 50 created (throws "never called") fresh tt refl refl
      refl (omega arith)

other_hash : request_hash plain 100 other_call ≢ request_hash plain 100 call
unfolding compute_request_hash text_le write_scalar
other_hash e = false≢true ((eq_iff "POST\n/x\n1" "POST\n/x\n{'a':1,'b':2}").1 e)

run_or_cache-conflict_example :
    run_or_cache plain 100 other_call 50
      (responds created)
      (run_or_cache plain 100 call 5 (responds created) fresh).1
    ≡ (conflict "k", (run_or_cache plain 100 call 5 (responds created) fresh).1)
unfolding get
run_or_cache-conflict_example =
    run_or_cache-conflict plain 100 call other_call 5 50 created (responds created) fresh tt refl
      refl other_hash (omega arith)

run_or_cache-throws_example :
    ((run_or_cache plain 100 call 5 (throws "down") fresh).0 ≡ thrown "down")
    × ((run_or_cache plain 100 call 5 (throws "down") fresh).1.store ≡ fresh.store)
    × ((run_or_cache plain 100 call 6
          (responds created)
          (run_or_cache plain 100 call 5 (throws "down") fresh).1).0
        ≡ resolved created false)
unfolding get
run_or_cache-throws_example =
    run_or_cache-throws plain 100 call call 5 6 "down" created fresh tt refl refl (omega arith)

abbrev kept : Service
kept = (run_or_cache plain 100 call 5 (responds created) fresh).1

run_or_cache-delete_older_than_example :
    (run_or_cache plain 100 call 200
      (responds created)
      (record kept { store = delete_older_than 150 kept.store })).0
    ≡ (run_or_cache plain 100 call 200 (responds created) kept).0
unfolding run_or_cache get put
run_or_cache-delete_older_than_example =
    run_or_cache-delete_older_than plain 100 150 200 call (responds created) kept (refl, tt)
      (omega arith)

abbrev calls : ℕ → Input
calls _ = call

abbrev in_handler : State
in_handler = record {
  service = record { store = []; inflight = "u1::k" ∷ [] };
  phase = update (update (update (λ _. idle) 0 (fetched none)) 1 (fetched none)) 0 (running 5);
}

in_handler_reached : Reach plain 100 calls (start plain 100 calls) in_handler
unfolding decide get scope_idempotency_key
in_handler_reached =
    next (next (next here (fetch_step 0 refl)) (fetch_step 1 refl)) (decide_step 0 5 none refl)

handlers_exclude_example : (holds (in_handler.phase 0) && holds (in_handler.phase 1)) ≡ false
handlers_exclude_example =
    handlers_exclude plain 100 calls 0 1 in_handler_reached (omega arith) refl

handler_runs_twice_example :
    (σ : State) × Reach plain 100 calls (start plain 100 calls) σ
    × (σ.phase 0 ≡ done (resolved created false))
    × (σ.phase 1 ≡ done (resolved created false))
handler_runs_twice_example = handler_runs_twice plain 100 calls 5 6 created created
