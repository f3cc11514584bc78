-- ===== src/Devices/Tests.antt =====
-- Sign-ins and mails, and the theorems at concrete inputs.
use Prim.Native.String.{String}
use nest_base.Base.{ℕ, true, false, some, List, [], ◌∷◌, ◌≡◌, refl, arith}
use nest_base.Base.Dict.{get, put, remove}
use nest_base.Devices.Handling.{
  KnownSession, DeviceHandlingDecisionInput, DeviceHandlingDecision, decide_device_handling,
}
use nest_base.Devices.Throttle.{
  allowed, mailed, called, ended, Event, check, default_window_ms, mails,
}
use nest_base.Devices.Spacing.{IsSpaced, nothing_yet, mails-IsSpaced}

abbrev session : (id fingerprint : String) (seen created : ℕ) → KnownSession
session id fingerprint seen created = record {
  id = id;
  fingerprint_hash = fingerprint;
  last_seen_at = seen;
  created_at = created;
}

-- The new session is `s4`; two of the others were last seen at one time.
abbrev sign_in : (fingerprint : String) → DeviceHandlingDecisionInput
sign_in fingerprint = record {
  current_fingerprint = fingerprint;
  current_session_id = "s4";
  known_sessions =
      session "s1" "f1" 50 10
      ∷ session "s2" "f2" 40 30
      ∷ session "s3" "f3" 40 20
      ∷ session "s4" fingerprint 60 60
      ∷ [];
  max_devices_per_user = 3;
}

oldest_revoked :
    decide_device_handling (sign_in "f4") ≡ DeviceHandlingDecision.new_device (some "s3")
unfolding decide_device_handling
oldest_revoked = refl

-- A sign-in from a known device revokes nothing, though four sessions are more than three.
known_over_cap : decide_device_handling (sign_in "f1") ≡ DeviceHandlingDecision.known
unfolding decide_device_handling
known_over_cap = refl

-- Two calls for ann that do not overlap, and one in between for bob whose send fails.
abbrev five_events : List Event
five_events =
    called "ann" 0
    ∷ ended "ann" true 5
    ∷ called "bob" 10
    ∷ ended "bob" false 15
    ∷ called "ann" 20
    ∷ called "bob" 30
    ∷ called "ann" 105
    ∷ ended "ann" true 110
    ∷ []

mails-IsSpaced_example : IsSpaced 100 (mails 100 five_events (nothing_yet [])).log
mails-IsSpaced_example = mails-IsSpaced 100 0 five_events [] (ground arith)

two_go_out :
    (mails 100 five_events (nothing_yet [])).log
    ≡ mailed "ann" 110
      ∷ allowed "ann" 105
      ∷ allowed "bob" 30
      ∷ allowed "bob" 10
      ∷ mailed "ann" 5
      ∷ allowed "ann" 0
      ∷ []
unfolding mails get put remove
two_go_out = refl

-- A sign-in during the send of another one's mail gets a mail of its own, within the window.
overlap_sends_twice :
    (mails default_window_ms
      (called "ann" 0 ∷ called "ann" 1000 ∷ ended "ann" true 2000 ∷ ended "ann" true 3000 ∷ [])
      (nothing_yet [])).log
    ≡ mailed "ann" 3000 ∷ mailed "ann" 2000 ∷ allowed "ann" 1000 ∷ allowed "ann" 0 ∷ []
unfolding mails get put
overlap_sends_twice = refl

half_an_hour_left :
    (check default_window_ms "ann" 1_800_000 (("ann", 0) ∷ [])).0.reset_ms ≡ some 1_800_000
unfolding check get
half_an_hour_left = refl
