-- ===== src/Devices/Oldest.antt =====
-- Which session is given up for a new device, and how many sessions are left.
use Prim.Native.String.{String}
use mathlib.Core.Path.{subst}
use mathlib.Core.Bool.{false≢true}
use nest_base.Base.{
  suc, ◌≤◌, ◌<◌, Bool, true, false, not, Option, none, some, List, [], ◌∷◌, length, All, filter,
  str_eq, if◌then◌else◌, ◌≡◌, ◌≢◌, ◌⊎◌, refl, sym, ap, ◌∙◌, Bool-cases, inl, inr, eq_iff, arith,
}
use nest_base.Devices.Handling.{
  KnownSession, DeviceHandlingDecisionInput, DeviceHandlingDecision, is_older, oldest_of,
  select_oldest_session_for_revoke, others, decide_among, decide_device_handling,
}

abbrev pub HasSession : KnownSession → List KnownSession → Type 0
HasSession o [] = ⊥
HasSession o (s ∷ ss) = (s ≡ o) ⊎ HasSession o ss

-- Seen no later than the other, and created no later where they were last seen at one time.
abbrev pub IsNoNewer : KnownSession → KnownSession → Type 0
IsNoNewer o s =
    (o.last_seen_at < s.last_seen_at)
    ⊎ ((o.last_seen_at ≡ s.last_seen_at) × (o.created_at ≤ s.created_at))

IsNoNewer-trans : (a b c : KnownSession) → IsNoNewer a b → IsNoNewer b c → IsNoNewer a c
IsNoNewer-trans a b c (inl h) (inl k) = inl (omega arith)
IsNoNewer-trans a b c (inl h) (inr k) = inl (omega (arith, k.0))
IsNoNewer-trans a b c (inr h) (inl k) = inl (omega (arith, h.0))
IsNoNewer-trans a b c (inr h) (inr k) = inr (h.0 ∙ k.0, omega (arith, h.1, k.1))

pick-IsNoNewer :
    (older : Bool) (c o : KnownSession)
    → is_older c o ≡ older
    → IsNoNewer (if older then c else o) o × IsNoNewer (if older then c else o) c
pick-IsNoNewer true c o e = (ground arith, inr (refl, omega arith))
pick-IsNoNewer false c o e = (inr (refl, omega arith), ground arith)

pick-HasSession :
    (older : Bool) (r c o : KnownSession) (ss : List KnownSession)
    → HasSession r ((if older then c else o) ∷ ss)
    → HasSession r (o ∷ c ∷ ss)
pick-HasSession true r c o ss (inl e) = inr (inl e)
pick-HasSession false r c o ss (inl e) = inl e
pick-HasSession older r c o ss (inr h) = inr (inr h)

oldest_of-IsNoNewer :
    (oldest : KnownSession) (ss : List KnownSession)
    → IsNoNewer (oldest_of oldest ss) oldest × All (IsNoNewer (oldest_of oldest ss)) ss
unfolding oldest_of
oldest_of-IsNoNewer oldest [] = (inr (refl, omega arith), tt)
oldest_of-IsNoNewer oldest (c ∷ ss) =
    let x : KnownSession = if is_older c oldest then c else oldest in
    let (here, rest) = oldest_of-IsNoNewer x ss in
    let (of_oldest, of_c) = pick-IsNoNewer (is_older c oldest) c oldest refl in
    let r = oldest_of x ss in
    (IsNoNewer-trans r x oldest here of_oldest, (IsNoNewer-trans r x c here of_c, rest))

oldest_of-HasSession :
    (oldest : KnownSession) (ss : List KnownSession)
    → HasSession (oldest_of oldest ss) (oldest ∷ ss)
unfolding oldest_of
oldest_of-HasSession oldest [] = inl refl
oldest_of-HasSession oldest (c ∷ ss) =
    pick-HasSession (is_older c oldest) _ c oldest ss
      (oldest_of-HasSession (if is_older c oldest then c else oldest) ss)

HasSession-All :
    (P : KnownSession → Type 0) (o : KnownSession) (ss : List KnownSession)
    → HasSession o ss
    → All P ss
    → P o
HasSession-All P o [] h all_hold = absurd h
HasSession-All P o (s ∷ ss) (inl e) all_hold = subst P e all_hold.0
HasSession-All P o (s ∷ ss) (inr h) all_hold = HasSession-All P o ss h all_hold.1

-- Revoking a session leaves the others, and one less than there were.
abbrev pub revoked : Option String → List KnownSession → List KnownSession
revoked none ss = ss
revoked (some id) ss = filter (λ s. not (str_eq s.id id)) ss

length-filter :
    (q : KnownSession → Bool) (ss : List KnownSession) → length (filter q ss) ≤ length ss
length-filter q [] = omega arith
length-filter q (s ∷ ss) = ground (arith, length-filter q ss)

length-revoked :
    (o : KnownSession) (ss : List KnownSession)
    → HasSession o ss
    → suc (length (revoked (some o.id) ss)) ≤ length ss
length-revoked o [] h = absurd h
length-revoked o (s ∷ ss) (inl e) =
    let same : str_eq s.id o.id ≡ true = (eq_iff s.id o.id).1 (ap (λ x. x.id) e) in
    rw same (omega (arith, length-filter (λ x. not (str_eq x.id o.id)) ss))
length-revoked o (s ∷ ss) (inr h) = ground (arith, length-revoked o ss h)

-- What the decision to revoke a session says of it.
abbrev IsOldest : (id : String) → List KnownSession → Type 0
IsOldest id ss = (o : KnownSession) × HasSession o ss × (o.id ≡ id) × All (IsNoNewer o) ss

select_oldest_session_for_revoke-IsOldest :
    (ss : List KnownSession) (id : String)
    → select_oldest_session_for_revoke ss ≡ some id
    → IsOldest id ss
unfolding select_oldest_session_for_revoke
select_oldest_session_for_revoke-IsOldest [] id e = cc
select_oldest_session_for_revoke-IsOldest (s ∷ ss) id e =
    (oldest_of s ss, oldest_of-HasSession s ss, cc, oldest_of-IsNoNewer s ss)

branches :
    (matched over : Bool) (o r : Option String)
    → (if matched
        then DeviceHandlingDecision.known
        else if over
        then DeviceHandlingDecision.new_device o
        else DeviceHandlingDecision.new_device none)
      ≡ DeviceHandlingDecision.new_device r
    → (matched ≡ false) × (((over ≡ true) × (o ≡ r)) ⊎ ((over ≡ false) × (none ≡ r)))
branches true over o r e = cc
branches false true o r e = (refl, inl (refl, cc))
branches false false o r e = (refl, inr (refl, cc))

decide_among-IsOldest :
    (input : DeviceHandlingDecisionInput) (ss : List KnownSession) (id : String)
    → decide_among input ss ≡ DeviceHandlingDecision.new_device (some id)
    → IsOldest id ss
unfolding decide_among
decide_among-IsOldest input [] id e = cc
decide_among-IsOldest input (s ∷ ss) id e =
    let (new, rest) = branches _ _ _ (some id) e in
    elim rest [
      | inl (over, o) ↦ select_oldest_session_for_revoke-IsOldest (s ∷ ss) id o
      | inr (fits, o) ↦ cc
    ]

decide_among-bounded :
    (input : DeviceHandlingDecisionInput) (ss : List KnownSession) (r : Option String)
    → decide_among input ss ≡ DeviceHandlingDecision.new_device r
    → length ss ≤ input.max_devices_per_user
    → suc (length (revoked r ss)) ≤ input.max_devices_per_user
unfolding decide_among
decide_among-bounded input [] r e h = cc
decide_among-bounded input (s ∷ ss) r e h =
    let (new, rest) = branches _ _ _ r e in
    let most = input.max_devices_per_user in
    elim rest [
      | inl (over, o) ↦
          subst (λ x. suc (length (revoked x (s ∷ ss))) ≤ most) o
            (omega (arith, h, length-revoked (oldest_of s ss) (s ∷ ss) (oldest_of-HasSession s ss)))
      | inr (fits, o) ↦
          subst (λ x. suc (length (revoked x (s ∷ ss))) ≤ most) o (ground (arith, fits))
    ]

All-other :
    (id : String) (ss : List KnownSession)
    → All (λ s. s.id ≢ id) (filter (λ s. not (str_eq s.id id)) ss)
All-other id [] = tt
All-other id (s ∷ ss) = elim (Bool-cases (str_eq s.id id)) [
  | inl same ↦ rw same (All-other id ss)
  | inr other ↦ rw other ((λ e. false≢true (sym other ∙ (eq_iff s.id id).1 e)), All-other id ss)
]

-- Where a session is to be revoked, it is another one than the one just created, and no other one
-- was seen before it, or at the same time and created before it.
decide_device_handling-IsOldest :
    (input : DeviceHandlingDecisionInput) (id : String)
    → decide_device_handling input ≡ DeviceHandlingDecision.new_device (some id)
    → IsOldest id (others input) × (id ≢ input.current_session_id)
unfolding decide_device_handling
decide_device_handling-IsOldest input id e =
    let (o, there, is, oldest) = decide_among-IsOldest input (others input) id e in
    (
      (o, there, is, oldest),
      subst (λ i. i ≢ input.current_session_id) is
          (HasSession-All (λ s. s.id ≢ input.current_session_id) o (others input) there
            (All-other input.current_session_id input.known_sessions)),
    )

-- Where the sign-in is from a new device and the other sessions were within the cap, the sessions
-- that are left when the decision is carried out, with the new one, are within it as well.
decide_device_handling-bounded :
    (input : DeviceHandlingDecisionInput) (r : Option String)
    → decide_device_handling input ≡ DeviceHandlingDecision.new_device r
    → length (others input) ≤ input.max_devices_per_user
    → suc (length (revoked r (others input))) ≤ input.max_devices_per_user
unfolding decide_device_handling
decide_device_handling-bounded input r e h = decide_among-bounded input (others input) r e h
