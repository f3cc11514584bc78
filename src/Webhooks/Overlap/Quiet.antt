-- ===== src/Webhooks/Overlap/Quiet.antt =====
-- A disabled endpoint under calls that overlap.
use mathlib.Core.Path.{subst}
use nest_base.Base.{
  ℕ, zero, suc, ◌+◌, ◌≤◌, String, Bool, true, false, ◌≡◌, refl, sym, Option, none, some, List, [],
  ◌∷◌, All, length, length-append, find?, Bool-cases, inl, inr, arith,
}
use nest_base.Base.Table.{update_many}
use nest_base.Webhooks.Retry.{should_auto_disable}
use nest_base.Webhooks.Url.{validate_webhook_url}
use nest_base.Webhooks.Dispatcher.{
  WebhookEndpointSnapshot, EndpointStatus, active, disabled, DispatchInput, Posted, responds,
  throws, State, Environment, has_id, find_by_id, failures_row, disabled_row, set_failure_count,
  disable, is_registered,
}
use nest_base.Webhooks.Disabling.{status_of}
use nest_base.Webhooks.Overlap.{
  Stage, looked_up, answered, failure_counted, recording, ended, count_failure, after_answer,
  after_lookup, after_count, advance, Call, World, Event, begins, goes_on, with_call, begin_call,
  continue_at, step, run,
}

abbrev pub IsOff : String → State → Type 0
IsOff id s = status_of (find_by_id id s) ≡ some disabled

-- No row is enabled by an update of this kind.
update_many-off :
    (id : String) (p : WebhookEndpointSnapshot → Bool)
    (f : WebhookEndpointSnapshot → WebhookEndpointSnapshot)
    → ((e : WebhookEndpointSnapshot) → (f e).id ≡ e.id)
    → ((e : WebhookEndpointSnapshot) → e.status ≡ disabled → (f e).status ≡ disabled)
    → (rows : List WebhookEndpointSnapshot) → status_of (find? (has_id id) rows) ≡ some disabled
    → status_of (find? (has_id id) (update_many p f rows)) ≡ some disabled
update_many-off id p f same keeps [] h = cc
update_many-off id p f same keeps (e ∷ rows) h =
    ground (arith, same e, keeps e, update_many-off id p f same keeps rows)

set_failure_count-IsOff :
    (id x : String) (count : ℕ) (s : State) → IsOff id s → IsOff id (set_failure_count x count s)
unfolding set_failure_count find_by_id
set_failure_count-IsOff id x count s h =
    update_many-off id (has_id x) (failures_row count) (λ e. refl) (λ e d. d) s.endpoints h

disable-IsOff : (id x : String) (s : State) → IsOff id s → IsOff id (disable x s)
unfolding disable find_by_id
disable-IsOff id x s h =
    update_many-off id (has_id x) disabled_row (λ e. refl) (λ e d. refl) s.endpoints h

-- The requests that a call may still send: one, if it has read the endpoint as an active one.
abbrev pub to_send : EndpointStatus → ℕ
to_send active = 1
to_send disabled = 0

abbrev pub waiting : Stage → ℕ
waiting (looked_up e) = to_send e.status
waiting (answered e answer) = 0
waiting (failure_counted e status_code) = 0
waiting (recording d) = 0
waiting ended = 0

abbrev pub all_waiting : List Call → ℕ
all_waiting [] = 0
all_waiting (c ∷ calls) = waiting c.stage + all_waiting calls

-- The endpoint stays off, and requests are sent by calls that waited to.
abbrev Keeps : String → (waited : ℕ) → State → (waits : ℕ) → State → Type 0
Keeps id waited s waits t =
    (IsOff id s → IsOff id t) × (length t.posts + waits ≤ length s.posts + waited)

module _ (id : String) (env : Environment) (input : DispatchInput) where
  count_failure-Keeps :
      (e : WebhookEndpointSnapshot) (code : Option ℕ) (waited : ℕ) (s : State)
      → Keeps id waited s
          (waiting (count_failure env input e code s).0)
          (count_failure env input e code s).1
  unfolding count_failure set_failure_count
  count_failure-Keeps e code waited s =
      (set_failure_count-IsOff id e.id (e.consecutive_failures + 1) s, omega arith)

  after_lookup-Keeps :
      (status : EndpointStatus) (e : WebhookEndpointSnapshot) (s : State)
      → Keeps id
          (to_send status)
          s
          (waiting (after_lookup env input status e s).0)
          (after_lookup env input status e s).1
  unfolding after_lookup find_by_id
  after_lookup-Keeps disabled e s = (λ h. h, omega arith)
  after_lookup-Keeps active e s = elim (Bool-cases (validate_webhook_url env.platform e.url)) [
    | inl valid ↦ rw valid ((λ h. h), rw length-append (omega arith))
    | inr invalid ↦ rw invalid (count_failure-Keeps e none 1 s)
  ]

  after_answer-Keeps :
      (e : WebhookEndpointSnapshot) (answer : Posted) (s : State)
      → Keeps id 0 s
          (waiting (after_answer env input e answer s).0)
          (after_answer env input e answer s).1
  unfolding after_answer set_failure_count
  after_answer-Keeps e (responds true status) s = (set_failure_count-IsOff id e.id 0 s, omega arith)
  after_answer-Keeps e (responds false status) s = count_failure-Keeps e (some status) 0 s
  after_answer-Keeps e throws s = count_failure-Keeps e none 0 s

  after_count-Keeps :
      (e : WebhookEndpointSnapshot) (code : Option ℕ) (s : State)
      → Keeps id 0 s (waiting (after_count env input e code s).0) (after_count env input e code s).1
  unfolding after_count disable find_by_id
  after_count-Keeps e code s =
      elim (Bool-cases (should_auto_disable (e.consecutive_failures + 1) env.retry)) [
        | inl often ↦ rw often (disable-IsOff id e.id s, omega arith)
        | inr seldom ↦ rw seldom ((λ h. h), omega arith)
      ]

  advance-Keeps :
      (stage : Stage) (s : State)
      → Keeps id
          (waiting stage)
          s
          (waiting (advance env input stage s).0)
          (advance env input stage s).1
  unfolding advance find_by_id
  advance-Keeps (looked_up e) s = after_lookup-Keeps e.status e s
  advance-Keeps (answered e answer) s = after_answer-Keeps e answer s
  advance-Keeps (failure_counted e code) s = after_count-Keeps e code s
  advance-Keeps (recording d) s = ((λ h. h), omega arith)
  advance-Keeps ended s = ((λ h. h), omega arith)

continue_at-Keeps :
    (id : String) (place : ℕ) (calls : List Call) (s : State)
    → Keeps id
        (all_waiting calls)
        s
        (all_waiting (continue_at place calls s).0)
        (continue_at place calls s).1
unfolding continue_at
continue_at-Keeps id place [] s = ((λ h. h), omega arith)
continue_at-Keeps id zero (c ∷ calls) s =
    let (off, fewer) = advance-Keeps id c.env c.input c.stage s in (off, omega (arith, fewer))
continue_at-Keeps id (suc place) (c ∷ calls) s =
    let (off, fewer) = continue_at-Keeps id place calls s in (off, omega (arith, fewer))

-- The calls that are made are for this endpoint.
abbrev pub IsFor : String → Event → Type 0
IsFor id (begins env input) = input.endpoint_id ≡ id
IsFor id (goes_on place) = Unit

-- A call that reads the endpoint as a disabled one has nothing to send.
with_call-waiting :
    (env : Environment) (input : DispatchInput) (o : Option WebhookEndpointSnapshot) (w : World)
    → status_of o ≡ some disabled
    → ((with_call env input o w).stores ≡ w.stores)
      × (all_waiting (with_call env input o w).calls ≡ all_waiting w.calls)
unfolding with_call
with_call-waiting env input none w h = cc
with_call-waiting env input (some e) w h =
    let off : e.status ≡ disabled = cc in (refl, rw off (omega arith))

begin_call-waiting :
    (env : Environment) (input : DispatchInput) (w : World)
    → IsOff input.endpoint_id w.stores
    → ((begin_call env input w).stores ≡ w.stores)
      × (all_waiting (begin_call env input w).calls ≡ all_waiting w.calls)
unfolding begin_call
begin_call-waiting env input w h = elim (Bool-cases (is_registered env input env.registered)) [
  | inl declared ↦
      rw declared (with_call-waiting env input (find_by_id input.endpoint_id w.stores) w h)
  | inr unknown ↦ rw unknown (refl, refl)
]

-- What a step leaves of the bound.
abbrev Settles : String → World → World → Type 0
Settles id w v =
    IsOff id v.stores
    × (length v.stores.posts + all_waiting v.calls ≤ length w.stores.posts + all_waiting w.calls)

step-Settles :
    (id : String) (e : Event) (w : World) → IsFor id e → IsOff id w.stores → Settles id w (step e w)
unfolding step
step-Settles id (begins env input) w same off =
    let (stores, waits) =
      begin_call-waiting env input w (subst (λ i. IsOff i w.stores) (sym same) off) in
    (subst (IsOff id) (sym stores) off, rw (stores, waits) (omega arith))
step-Settles id (goes_on place) w same off =
    let (keeps, fewer) = continue_at-Keeps id place w.calls w.stores in (keeps off, fewer)

-- However calls overlap, those that are under way for any endpoints and those made from then on for
-- this one: the calls leave an endpoint that is disabled so, and send at most as many requests as
-- calls had read their endpoint as active by then and not sent theirs.
pub run-IsOff :
    (id : String) (events : List Event) (w : World)
    → All (IsFor id) events
    → IsOff id w.stores
    → IsOff id (run events w).stores
      × (length (run events w).stores.posts ≤ length w.stores.posts + all_waiting w.calls)
unfolding run
run-IsOff id [] w about off = (off, omega arith)
run-IsOff id (e ∷ events) w about off =
    let (still, fewer) = step-Settles id e w about.0 off in
    let (ends, bound) = run-IsOff id events (step e w) about.1 still in
    (ends, omega (arith, fewer, bound))
