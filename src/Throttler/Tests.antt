-- ===== src/Throttler/Tests.antt =====
-- Runs of the throttler, and its theorems at concrete inputs.
use mathlib.Core.Bool.{false≢true}
use nest_base.Base.{eq_iff, false, ◌≡◌, refl, some, none, [], ◌∷◌, map, arith}
use nest_base.Base.Dict.{get, put}
use nest_base.Throttler.Store.{Rows, increment, upserted, upsert}
use nest_base.Throttler.Service.{ThrottleWindow, resolved, is_undefined, consume}
use nest_base.Throttler.Decision.{counted_all, first_over, state_of, consume-decision}
use nest_base.Throttler.BucketKey.{
  ThrottleBucketSubject, present, pick, identity_of, tier_in, key_of, build_from,
  build_throttle_bucket_key, build_throttle_bucket_key-tier,
}
use nest_base.Throttler.Window.{increments, blocked_from, increments-window}

abbrev second : ThrottleWindow
second = record { name = "1s"; limit = 1; ttl_ms = 1000 }

abbrev minute : ThrottleWindow
minute = record { name = "1m"; limit = 30; ttl_ms = 60_000 }

-- The caller has used up the second, and 7 of the minute.
abbrev rows : Rows
rows =
    ("ip::1s", record { count = 1; expires_at = 5000 })
    ∷ ("ip::1m", record { count = 7; expires_at = 50_000 })
    ∷ []

consume-decision_example : consume "ip" 4500 (λ w. 4501) (second ∷ minute ∷ []) rows ≡ (
  resolved (record {
    allowed = is_undefined (first_over "ip" 4500 (λ w. 4501) rows (second ∷ minute ∷ []));
    violated_window = first_over "ip" 4500 (λ w. 4501) rows (second ∷ minute ∷ []);
    windows = map (state_of "ip" 4500 (λ w. 4501) rows) (second ∷ minute ∷ []);
  }),
  counted_all "ip" 4500 (λ w. 4501) (second ∷ minute ∷ []) rows,
)
consume-decision_example =
    consume-decision "ip" 4500 (λ w. 4501) second (minute ∷ []) rows
      (
        omega arith,
        λ e. false≢true ((eq_iff "1s" "").1 e),
        (λ e. false≢true ((eq_iff "1s" "1m").1 e), tt),
        (omega arith, λ e. false≢true ((eq_iff "1m" "").1 e), tt, tt),
      )

blocked_by_second : consume "ip" 4500 (λ w. 4501) (second ∷ minute ∷ []) rows ≡ (
  resolved (record {
    allowed = false;
    violated_window = some "1s";
    windows =
        (record { name = "1s"; remaining = 0; reset_seconds = 0 })
        ∷ (record { name = "1m"; remaining = 22; reset_seconds = 45 })
        ∷ [];
  }),
  ("ip::1s", record { count = 2; expires_at = 5000 })
      ∷ ("ip::1m", record { count = 8; expires_at = 50_000 })
      ∷ [],
)
unfolding consume increment upserted upsert get put
blocked_by_second = refl

increments-window_example :
    (increments "ip::1s" 1000 1 ((5000, 5000) ∷ (5400, 5401) ∷ []) rows).0
    ≡ blocked_from "ip::1s" 1000 1 1 ((5000, 5000) ∷ (5400, 5401) ∷ [])
unfolding get
increments-window_example =
    increments-window "ip::1s" 1000 1 5000 5000 ((5400, 5401) ∷ []) rows (omega arith) (omega arith)
      (omega arith, tt)

abbrev by_key : ThrottleBucketSubject
by_key = record {
  method = "POST";
  path = "/x";
  api_key_id = some "k";
  user_id = some "u";
  ip = some "::1";
}

bucket_of_key : build_throttle_bucket_key (λ s. s) by_key ≡ some "apiKey:k:POST:/x"
unfolding build_throttle_bucket_key build_from key_of identity_of pick present
bucket_of_key = refl

build_throttle_bucket_key-tier_example :
    tier_in (identity_of by_key) ≡ tier_in (identity_of (record by_key { user_id = none }))
unfolding build_throttle_bucket_key build_from key_of identity_of pick present
build_throttle_bucket_key-tier_example =
    build_throttle_bucket_key-tier (λ s. s) by_key (record by_key { user_id = none })
      "apiKey:k:POST:/x" refl refl
