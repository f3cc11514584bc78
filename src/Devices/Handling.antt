-- ===== src/Devices/Handling.antt =====
-- `decideDeviceHandling` and `selectOldestSessionForRevoke` of core/devices/device-handling.ts.
-- Times are milliseconds; the time of the call is carried by the source and never read.
use Prim.Native.String.{String}
use nest_base.Base.{
  ℕ, suc, Bool, not, ◌&&◌, ◌||◌, Option, none, some, List, [], ◌∷◌, length, any, filter, ltb, ◌==◌,
  str_eq, if◌then◌else◌,
}

pub record KnownSession : Type 0 where
  pub id : String
  pub fingerprint_hash : String
  pub last_seen_at : ℕ
  pub created_at : ℕ

pub record DeviceHandlingDecisionInput : Type 0 where
  pub current_fingerprint : String
  pub current_session_id : String
  pub known_sessions : List KnownSession
  pub max_devices_per_user : ℕ

pub data DeviceHandlingDecision : Type 0 where
  first_sign_in : DeviceHandlingDecision
  known : DeviceHandlingDecision
  new_device : (revoke_session_id : Option String) → DeviceHandlingDecision

-- The two tests of a candidate against the oldest session so far.
abbrev pub is_older : (candidate oldest : KnownSession) → Bool
is_older candidate oldest =
    ltb candidate.last_seen_at oldest.last_seen_at
    || (candidate.last_seen_at == oldest.last_seen_at && ltb candidate.created_at oldest.created_at)

unfoldable pub oldest_of : (oldest : KnownSession) → List KnownSession → KnownSession
oldest_of oldest [] = oldest
oldest_of oldest (candidate ∷ sessions) =
    oldest_of (if is_older candidate oldest then candidate else oldest) sessions

unfoldable pub select_oldest_session_for_revoke : List KnownSession → Option String
unfolding oldest_of
select_oldest_session_for_revoke [] = none
select_oldest_session_for_revoke (session ∷ sessions) = some (oldest_of session sessions).id

-- Every session but the one that was just created.
abbrev pub others : DeviceHandlingDecisionInput → List KnownSession
others input = filter (λ s. not (str_eq s.id input.current_session_id)) input.known_sessions

-- From the first `return` on, given the other sessions.
unfoldable pub decide_among :
    DeviceHandlingDecisionInput → List KnownSession → DeviceHandlingDecision
unfolding select_oldest_session_for_revoke
decide_among input [] = DeviceHandlingDecision.first_sign_in
decide_among input (s ∷ ss) =
    if any (λ o. str_eq o.fingerprint_hash input.current_fingerprint) (s ∷ ss)
    then DeviceHandlingDecision.known
    else if ltb input.max_devices_per_user (suc (length (s ∷ ss)))
    then DeviceHandlingDecision.new_device (select_oldest_session_for_revoke (s ∷ ss))
    else DeviceHandlingDecision.new_device none

unfoldable pub decide_device_handling : DeviceHandlingDecisionInput → DeviceHandlingDecision
unfolding decide_among
decide_device_handling input = decide_among input (others input)
