-- ===== src/Webhooks/Disabling.antt =====
-- An endpoint that keeps failing is left alone after a while.
use nest_base.Base.{
  ℕ, ◌+◌, ◌-◌, ◌≤◌, ◌<◌, String, Bool, true, false, ◌&&◌, ◌≡◌, inl, inr, refl, sym, ap, ◌∙◌, Option,
  none, some, List, [], ◌∷◌, arith, All, leb, length, length-append, Bool-cases, if◌then◌else◌,
}
use nest_base.Webhooks.Url.{validate_webhook_url}
use nest_base.Webhooks.Dispatcher.{
  WebhookEndpointSnapshot, DispatchInput, EndpointStatus, Request, request, State, Environment,
  active, disabled, find_by_id, is_registered, dispatch_to, dispatch, failures_row, disabled_row,
}
use nest_base.Webhooks.Delivery.{is_ok, counted, sent, dispatch-active}

-- Calls one after the other, each in its own environment.
unfoldable pub dispatch_all : List (Environment × DispatchInput) → State → State
dispatch_all [] s = s
dispatch_all ((env, input) ∷ calls) s = dispatch_all calls (dispatch env input s).1

abbrev pub status_of : Option WebhookEndpointSnapshot → Option EndpointStatus
status_of none = none
status_of (some e) = some e.status

-- A call for this endpoint and a declared event type, with this threshold, that no answer makes ok.
abbrev pub IsFailing : (id : String) (limit : ℕ) → Environment × DispatchInput → Type 0
IsFailing id limit (env, input) =
    (input.endpoint_id ≡ id)
    × (is_registered env input env.registered ≡ true)
    × ((r : Request) → is_ok env input (env.answer r) ≡ false)
    × (env.retry.auto_disable_after ≡ limit)

&&-false : (b : Bool) → b && false ≡ false
&&-false true = refl
&&-false false = refl

dispatch-disabled :
    (env : Environment) (input : DispatchInput) (e : WebhookEndpointSnapshot) (s : State)
    → find_by_id input.endpoint_id s ≡ some e
    → e.status ≡ disabled
    → (dispatch env input s).1 ≡ s
unfolding dispatch dispatch_to
dispatch-disabled env input e s found off =
    elim (Bool-cases (is_registered env input env.registered)) [
      | inl h ↦ rw (h, found, off) refl
      | inr h ↦ rw h refl
    ]

dispatch_all-disabled :
    (id : String) (limit : ℕ) (calls : List (Environment × DispatchInput))
    (e : WebhookEndpointSnapshot) (s : State)
    → All (IsFailing id limit) calls
    → find_by_id id s ≡ some e
    → e.status ≡ disabled
    → dispatch_all calls s ≡ s
unfolding dispatch_all
dispatch_all-disabled id limit [] e s failing found off = refl
dispatch_all-disabled id limit ((env, input) ∷ calls) e s failing found off =
    let same : input.endpoint_id ≡ id = failing.0.0 in
    rw (dispatch-disabled env input e s (rw same found) off)
      (dispatch_all-disabled id limit calls e s failing.1 found off)

-- What one failing call makes of an active endpoint.
abbrev failed_once : ℕ → WebhookEndpointSnapshot → WebhookEndpointSnapshot
failed_once limit e =
    if leb limit (e.consecutive_failures + 1)
    then disabled_row (failures_row (e.consecutive_failures + 1) e)
    else failures_row (e.consecutive_failures + 1) e

length-sent :
    (env : Environment) (input : DispatchInput) (e : WebhookEndpointSnapshot)
    → length (sent env input e) ≤ 1
length-sent env input e = ground arith

counted-failed :
    (id : String) (limit : ℕ) (env : Environment) (input : DispatchInput)
    (e : WebhookEndpointSnapshot)
    → IsFailing id limit (env, input)
    → counted env input e ≡ failed_once limit e
counted-failed id limit env input e (same, registered, fails, threshold) =
    rw (threshold, fails (request env input e), &&-false (validate_webhook_url env.platform e.url))
      refl

failing_step :
    (id : String) (limit : ℕ) (env : Environment) (input : DispatchInput)
    (e : WebhookEndpointSnapshot) (s : State)
    → IsFailing id limit (env, input)
    → find_by_id id s ≡ some e
    → e.status ≡ active
    → (find_by_id id (dispatch env input s).1 ≡ some (failed_once limit e))
      × (length (dispatch env input s).1.posts ≤ length s.posts + 1)
failing_step id limit env input e s failing found on =
    let same : input.endpoint_id ≡ id = failing.0 in
    let (ended, row, deliveries, posts) =
      dispatch-active env input e s failing.1 (rw same found) on in
    (
      rw (sym same) (row ∙ ap some (counted-failed id limit env input e failing)),
      rw (posts, length-append) (omega (arith, length-sent env input e)),
    )

dispatch_all-failing :
    (id : String) (limit : ℕ) (calls : List (Environment × DispatchInput))
    (e : WebhookEndpointSnapshot) (s : State)
    → All (IsFailing id limit) calls
    → find_by_id id s ≡ some e
    → e.status ≡ active
    → e.consecutive_failures < limit
    → (length (dispatch_all calls s).posts ≤ length s.posts + (limit - e.consecutive_failures))
      × (limit ≤ e.consecutive_failures + length calls
          → status_of (find_by_id id (dispatch_all calls s)) ≡ some disabled)
unfolding dispatch_all
dispatch_all-failing id limit [] e s failing found on below =
    (omega arith, λ enough. absurd (omega arith))
dispatch_all-failing id limit ((env, input) ∷ calls) e s failing found on below =
    let (row, posts) = failing_step id limit env input e s failing.0 found on in
    let t = (dispatch env input s).1 in
    elim (Bool-cases (leb limit (e.consecutive_failures + 1))) [
      | inl h ↦
          let off =
            dispatch_all-disabled id limit calls
              (disabled_row (failures_row (e.consecutive_failures + 1) e)) t failing.1
              (row ∙ rw h refl) refl in
          rw off (omega (arith, posts), λ enough. rw row (rw h refl))
      | inr h ↦
          let (bound, ends) =
            dispatch_all-failing id limit calls (failures_row (e.consecutive_failures + 1) e) t
              failing.1 (row ∙ rw h refl) on (ground arith) in
          (omega (arith, posts, bound, below), λ enough. ends (omega arith))
    ]

-- Calls to an active endpoint that all fail, each made when the one before it has ended, send it at
-- most as many requests as failures are missing to `autoDisableAfter`.
dispatch_all-bounded :
    (id : String) (limit : ℕ) (calls : List (Environment × DispatchInput))
    (e : WebhookEndpointSnapshot) (s : State)
    → All (IsFailing id limit) calls
    → find_by_id id s ≡ some e
    → e.status ≡ active
    → e.consecutive_failures < limit
    → length (dispatch_all calls s).posts ≤ length s.posts + (limit - e.consecutive_failures)
dispatch_all-bounded id limit calls e s failing found on below =
    (dispatch_all-failing id limit calls e s failing found on below).0

-- An active endpoint is disabled once as many calls in a row, each made when the one before it has
-- ended, have failed as failures were missing to `autoDisableAfter`.
pub dispatch_all-disables :
    (id : String) (limit : ℕ) (calls : List (Environment × DispatchInput))
    (e : WebhookEndpointSnapshot) (s : State)
    → All (IsFailing id limit) calls
    → find_by_id id s ≡ some e
    → e.status ≡ active
    → e.consecutive_failures < limit
    → limit ≤ e.consecutive_failures + length calls
    → status_of (find_by_id id (dispatch_all calls s)) ≡ some disabled
dispatch_all-disables id limit calls e s failing found on below enough =
    (dispatch_all-failing id limit calls e s failing found on below).1 enough
