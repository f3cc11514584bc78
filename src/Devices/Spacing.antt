-- ===== src/Devices/Spacing.antt =====
-- Mails about new devices that one user gets, and the time between them.
use Prim.Native.String.{String}
use mathlib.Core.Bool.{false≢true}
use nest_base.Base.{
  ℕ, ◌+◌, ◌≤◌, Bool, true, false, Option, none, some, List, [], ◌∷◌, All, All-mono, leb, str_eq,
  ◌≡◌, ◌≢◌, ◌⊎◌, refl, sym, ap, ◌∙◌, Bool-cases, inl, inr, eq_iff, eq_refl, arith,
}
use nest_base.Base.Dict.{Dict, get, remove, put, get-put, get-remove}
use nest_base.Devices.Throttle.{
  check_last, check, record_mail, Happened, allowed, mailed, Mails, Event, called, ended, time_of,
  admit, call_new_device, record_dispatched, take_out, end_new_device, send_new_device, mails,
}

-- The clock does not run back between the events.
abbrev pub IsInOrder : (clock : ℕ) → List Event → Type 0
IsInOrder clock [] = Unit
IsInOrder clock (e ∷ events) = (clock ≤ time_of e) × IsInOrder (time_of e) events

abbrev pub nothing_yet : Dict ℕ → Mails
nothing_yet last_sent = record { last_sent = last_sent; sending = []; log = [] }

module _ (window_ms : ℕ) where
  -- A mail to another user, or one recorded a window before this time.
  abbrev pub Precedes : (user_id : String) (at : ℕ) → Happened → Type 0
  Precedes u t (allowed v s) = Unit
  Precedes u t (mailed v s) = (v ≢ u) ⊎ (s + window_ms ≤ t)

  -- No mail is let through within a window after one to its user was recorded.
  abbrev pub IsSpaced : List Happened → Type 0
  IsSpaced [] = Unit
  IsSpaced (allowed u t ∷ log) = All (Precedes u t) log × IsSpaced log
  IsSpaced (mailed u t ∷ log) = IsSpaced log

  -- The map still knows of the mail, or of a later one to its user, or its window is over.
  abbrev IsKnown : (clock : ℕ) → Dict ℕ → Happened → Type 0
  IsKnown clock m (allowed v s) = Unit
  IsKnown clock m (mailed v s) =
      (s ≤ clock) × (((last : ℕ) × (get v m ≡ some last) × (s ≤ last)) ⊎ (s + window_ms ≤ clock))

  abbrev Holds : (clock : ℕ) → Mails → Type 0
  Holds clock s = IsSpaced s.log × All (IsKnown clock s.last_sent) s.log

  IsKnown-later :
      (clock t : ℕ) (m : Dict ℕ) (e : Happened) → clock ≤ t → IsKnown clock m e → IsKnown t m e
  IsKnown-later clock t m (allowed v s) h k = tt
  IsKnown-later clock t m (mailed v s) h (past, inl known) = (omega (arith, h, past), inl known)
  IsKnown-later clock t m (mailed v s) h (past, inr over) =
      (omega (arith, h, past), inr (omega (arith, h, over)))

  same_last :
      (u v : String) (m : Dict ℕ) (o : Option ℕ) (last : ℕ)
      → u ≡ v
      → get u m ≡ o
      → get v m ≡ some last
      → o ≡ some last
  same_last u v m o last same here there = sym here ∙ ap (λ k. get k m) same ∙ there

  IsKnown-remove :
      (clock t last : ℕ) (u : String) (m : Dict ℕ) (e : Happened)
      → clock ≤ t
      → get u m ≡ some last
      → last + window_ms ≤ t
      → IsKnown clock m e
      → IsKnown t (remove u m) e
  IsKnown-remove clock t last u m (allowed v s) h here over k = tt
  IsKnown-remove clock t last u m (mailed v s) h here over (past, inr done) =
      (omega (arith, h, past), inr (omega (arith, h, done)))
  IsKnown-remove clock t last u m (mailed v s) h here over (past, inl (l, there, before)) =
      elim (Bool-cases (str_eq u v)) [
        | inl same ↦
            let lasts : some last ≡ some l =
              same_last u v m (some last) l ((eq_iff u v).0 same) here there in
            let one : last ≡ l = cc in
            (omega (arith, h, past), inr (omega (arith, one, before, over)))
        | inr other ↦ (omega (arith, h, past), inl (l, get-remove u v m ∙ rw other there, before))
      ]

  IsKnown-put :
      (clock t : ℕ) (u : String) (m : Dict ℕ) (e : Happened)
      → clock ≤ t
      → IsKnown clock m e
      → IsKnown t (put u t m) e
  IsKnown-put clock t u m (allowed v s) h k = tt
  IsKnown-put clock t u m (mailed v s) h (past, inr done) =
      (omega (arith, h, past), inr (omega (arith, h, done)))
  IsKnown-put clock t u m (mailed v s) h (past, inl (l, there, before)) =
      elim (Bool-cases (str_eq u v)) [
        | inl same ↦ (
          omega (arith, h, past),
          inl (t, get-put u v t m ∙ rw same refl, omega (arith, h, past)),
        )
        | inr other ↦ (omega (arith, h, past), inl (l, get-put u v t m ∙ rw other there, before))
      ]

  known-Precedes :
      (clock t : ℕ) (u : String) (m : Dict ℕ) (o : Option ℕ) (e : Happened)
      → clock ≤ t
      → get u m ≡ o
      → ((last : ℕ) → o ≡ some last → last + window_ms ≤ t)
      → IsKnown clock m e
      → Precedes u t e
  known-Precedes clock t u m o (allowed v s) h here over k = tt
  known-Precedes clock t u m o (mailed v s) h here over (past, inr done) =
      inr (omega (arith, h, done))
  known-Precedes clock t u m o (mailed v s) h here over (past, inl (l, there, before)) =
      elim (Bool-cases (str_eq u v)) [
        | inl same ↦
            let late = over l (same_last u v m o l ((eq_iff u v).0 same) here there) in
            inr (omega (arith, before, late))
        | inr other ↦ inl (λ is. false≢true (sym other ∙ (eq_iff u v).1 (sym is)))
      ]

  check_last-Holds :
      (clock t : ℕ) (u : String) (o : Option ℕ) (s : Mails)
      → clock ≤ t
      → get u s.last_sent ≡ o
      → Holds clock s
      → Holds t (
          admit u t
            (check_last window_ms u t o s.last_sent).0.allowed
            (check_last window_ms u t o s.last_sent).1
            s)
  unfolding check_last admit
  check_last-Holds clock t u none s h here (spaced, known) =
      let precede =
        All-mono (IsKnown clock s.last_sent) (Precedes u t)
          (λ e k. known-Precedes clock t u s.last_sent none e h here (λ last e. cc) k) s.log
          known in
      let later =
        All-mono (IsKnown clock s.last_sent) (IsKnown t s.last_sent)
          (λ e k. IsKnown-later clock t s.last_sent e h k) s.log known in
      ((precede, spaced), (tt, later))
  check_last-Holds clock t u (some last) s h here (spaced, known) =
      elim (Bool-cases (leb (last + window_ms) t)) [
        | inl over ↦
            let late : last + window_ms ≤ t = ground (arith, over) in
            let precede =
              All-mono (IsKnown clock s.last_sent) (Precedes u t)
                (λ e k.
                  known-Precedes clock t u s.last_sent (some last) e h here
                    (λ l found. let same : last ≡ l = cc in omega (arith, late, same)) k)
                s.log known in
            let later =
              All-mono (IsKnown clock s.last_sent) (IsKnown t (remove u s.last_sent))
                (λ e k. IsKnown-remove clock t last u s.last_sent e h here late k) s.log known in
            rw over ((precede, spaced), (tt, later))
        | inr within ↦
            let later =
              All-mono (IsKnown clock s.last_sent) (IsKnown t s.last_sent)
                (λ e k. IsKnown-later clock t s.last_sent e h k) s.log known in
            rw within (spaced, later)
      ]

  record_dispatched-Holds :
      (clock t : ℕ) (u : String) (dispatched : Bool) (s : Mails)
      → clock ≤ t
      → Holds clock s
      → Holds t (record_dispatched u t dispatched s)
  unfolding record_dispatched record_mail
  record_dispatched-Holds clock t u true s h (spaced, known) = (
    spaced,
    (
      (omega arith, inl (t, get-put u u t s.last_sent ∙ rw (eq_refl u) refl, omega arith)),
      All-mono (IsKnown clock s.last_sent) (IsKnown t (put u t s.last_sent))
          (λ e k. IsKnown-put clock t u s.last_sent e h k) s.log known,
    ),
  )
  record_dispatched-Holds clock t u false s h (spaced, known) = (
    spaced,
    All-mono (IsKnown clock s.last_sent) (IsKnown t s.last_sent)
        (λ e k. IsKnown-later clock t s.last_sent e h k) s.log known,
  )

  end_new_device-Holds :
      (clock t : ℕ) (u : String) (dispatched : Bool) (o : Option (List String)) (s : Mails)
      → clock ≤ t
      → Holds clock s
      → Holds t (end_new_device u dispatched t o s)
  unfolding end_new_device record_dispatched
  end_new_device-Holds clock t u dispatched none s h holds =
      record_dispatched-Holds clock t u false s h holds
  end_new_device-Holds clock t u dispatched (some users) s h holds =
      record_dispatched-Holds clock t u dispatched (record s { sending = users }) h holds

  send_new_device-Holds :
      (clock : ℕ) (e : Event) (s : Mails)
      → clock ≤ time_of e
      → Holds clock s
      → Holds (time_of e) (send_new_device window_ms e s)
  unfolding send_new_device call_new_device check
  send_new_device-Holds clock (called u t) s h holds =
      check_last-Holds clock t u (get u s.last_sent) s h refl holds
  send_new_device-Holds clock (ended u dispatched t) s h holds =
      end_new_device-Holds clock t u dispatched (take_out u s.sending) s h holds

  mails-Holds :
      (clock : ℕ) (events : List Event) (s : Mails)
      → IsInOrder clock events
      → Holds clock s
      → IsSpaced (mails window_ms events s).log
  unfolding mails
  mails-Holds clock [] s order holds = holds.0
  mails-Holds clock (e ∷ events) s order holds =
      mails-Holds (time_of e) events (send_new_device window_ms e s) order.1
        (send_new_device-Holds clock e s order.0 holds)

  -- However the calls for users with new devices overlap, in the order of the clock: when the
  -- throttle lets a mail through, the window has passed since every mail to that user that was
  -- recorded before. Mails that are still being sent are not recorded.
  pub mails-IsSpaced :
      (clock : ℕ) (events : List Event) (last_sent : Dict ℕ)
      → IsInOrder clock events
      → IsSpaced (mails window_ms events (nothing_yet last_sent)).log
  mails-IsSpaced clock events last_sent order =
      mails-Holds clock events (nothing_yet last_sent) order (tt, tt)
