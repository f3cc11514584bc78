-- ===== src/Devices/Throttle.antt =====
-- `createNewDeviceThrottle` of core/devices/new-device-throttle.ts. The comparison of the elapsed
-- time with the window is written on the sum, so that a clock that runs back is as in the source.
use Prim.Native.String.{String}
use nest_base.Base.{
  ℕ, ◌+◌, ◌-◌, ◌*◌, Bool, true, false, Option, none, some, List, [], ◌∷◌, leb, str_eq,
  if◌then◌else◌,
}
use nest_base.Base.Dict.{Dict, get, put, remove}

pub record NewDeviceThrottleDecision : Type 0 where
  pub allowed : Bool
  pub reset_ms : Option ℕ

abbrev pub default_window_ms : ℕ
default_window_ms = 60 * 60 * 1000

abbrev pub allows : NewDeviceThrottleDecision
allows = record { allowed = true; reset_ms = none }

module _ (window_ms : ℕ) where
  -- The decision on the time of the last mail, and the map after it.
  unfoldable pub check_last :
      (user_id : String) (now : ℕ) → Option ℕ → Dict ℕ → NewDeviceThrottleDecision × Dict ℕ
  check_last user_id now none last_sent = (allows, last_sent)
  check_last user_id now (some last) last_sent =
      if leb (last + window_ms) now
      then (allows, remove user_id last_sent)
      else (record { allowed = false; reset_ms = some (last + window_ms - now) }, last_sent)

  unfoldable pub check : (user_id : String) (now : ℕ) → Dict ℕ → NewDeviceThrottleDecision × Dict ℕ
  unfolding check_last
  check user_id now last_sent = check_last user_id now (get user_id last_sent) last_sent

unfoldable pub record_mail : (user_id : String) (now : ℕ) → Dict ℕ → Dict ℕ
record_mail user_id now last_sent = put user_id now last_sent

-- What is seen of `sendNewDevice`: the throttle lets a mail through, and a mail that has gone out is
-- recorded.
pub data Happened : Type 0 where
  allowed : (user_id : String) (at : ℕ) → Happened
  mailed : (user_id : String) (at : ℕ) → Happened

-- The throttle's map, the users of the calls that await their send, and what has happened, the last
-- first.
pub record Mails : Type 0 where
  pub last_sent : Dict ℕ
  pub sending : List String
  pub log : List Happened

-- `sendNewDevice` of core/auth/better-auth-email-hooks.runner.ts with the throttle wired, cut at its
-- await, so that other calls run while a mail is being sent: a call is made, or its send has ended,
-- with or without a mail dispatched.
pub data Event : Type 0 where
  called : (user_id : String) (at : ℕ) → Event
  ended : (user_id : String) (dispatched : Bool) (at : ℕ) → Event

abbrev pub time_of : Event → ℕ
time_of (called user_id at) = at
time_of (ended user_id dispatched at) = at

unfoldable pub admit : (user_id : String) (at : ℕ) → Bool → Dict ℕ → Mails → Mails
admit user_id at true checked s = record s {
  last_sent = checked;
  sending = user_id ∷ s.sending;
  log = allowed user_id at ∷ s.log;
}
admit user_id at false checked s = record s { last_sent = checked }

unfoldable pub call_new_device : (window_ms : ℕ) (user_id : String) (at : ℕ) → Mails → Mails
unfolding check admit
call_new_device window_ms user_id at s =
    let (decision, checked) = check window_ms user_id at s.last_sent in
    admit user_id at decision.allowed checked s

unfoldable pub record_dispatched : (user_id : String) (at : ℕ) (dispatched : Bool) → Mails → Mails
unfolding record_mail
record_dispatched user_id at true s = record s {
  last_sent = record_mail user_id at s.last_sent;
  log = mailed user_id at ∷ s.log;
}
record_dispatched user_id at false s = s

unfoldable pub kept : String → Option (List String) → Option (List String)
kept u none = none
kept u (some users) = some (u ∷ users)

-- The list without one occurrence, if it has one.
unfoldable pub take_out : String → List String → Option (List String)
unfolding kept
take_out user_id [] = none
take_out user_id (u ∷ users) =
    let rest = take_out user_id users in if str_eq u user_id then some users else kept u rest

-- No call ends that was not let through.
unfoldable pub end_new_device :
    (user_id : String) (dispatched : Bool) (at : ℕ) → Option (List String) → Mails → Mails
unfolding record_dispatched
end_new_device user_id dispatched at none s = s
end_new_device user_id dispatched at (some users) s =
    record_dispatched user_id at dispatched (record s { sending = users })

unfoldable pub send_new_device : (window_ms : ℕ) → Event → Mails → Mails
unfolding call_new_device end_new_device take_out
send_new_device window_ms (called user_id at) s = call_new_device window_ms user_id at s
send_new_device window_ms (ended user_id dispatched at) s =
    end_new_device user_id dispatched at (take_out user_id s.sending) s

-- Calls that overlap in any way.
unfoldable pub mails : (window_ms : ℕ) → List Event → Mails → Mails
unfolding send_new_device
mails window_ms [] s = s
mails window_ms (e ∷ events) s = mails window_ms events (send_new_device window_ms e s)
