-- ===== src/Webhooks/Overlap.antt =====
-- `WebhookDispatcher.dispatch` cut at its awaits, and calls of it that overlap. Between two awaits
-- the code runs alone; a statement of a store takes effect in the step that ends with its await.
use nest_base.Base.{
  ℕ, zero, suc, true, false, ◌+◌, Option, none, some, List, [], ◌∷◌, if◌then◌else◌, String,
}
use nest_base.Webhooks.Url.{validate_webhook_url}
use nest_base.Webhooks.Retry.{should_auto_disable}
use nest_base.Webhooks.Dispatcher.{
  WebhookEndpointSnapshot, EndpointStatus, active, disabled, DeliveryRecord, delivered, failed,
  DispatchInput, Posted, responds, throws, State, Environment, request, post, set_failure_count,
  disable, record_delivery, delivery, find_by_id, is_registered,
}
pub mod Quiet
pub mod Alone

-- Where a call stands: the endpoint has been read, the request has been answered, the failure is
-- counted, the endpoint's row is written, or the call has ended.
pub data Stage : Type 0 where
  looked_up : WebhookEndpointSnapshot → Stage
  answered : WebhookEndpointSnapshot → Posted → Stage
  failure_counted : WebhookEndpointSnapshot → (status_code : Option ℕ) → Stage
  recording : DeliveryRecord → Stage
  ended : Stage

module _ (env : Environment) (input : DispatchInput) where
  -- The count is the one that was read, and one more.
  unfoldable pub count_failure : WebhookEndpointSnapshot → Option ℕ → State → Stage × State
  unfolding set_failure_count
  count_failure e status_code s =
      (failure_counted e status_code, set_failure_count e.id (e.consecutive_failures + 1) s)

  unfoldable pub after_answer : WebhookEndpointSnapshot → Posted → State → Stage × State
  unfolding count_failure set_failure_count
  after_answer e (responds true status) s =
      (recording (delivery input e delivered (some status)), set_failure_count e.id 0 s)
  after_answer e (responds false status) s = count_failure e (some status) s
  after_answer e throws s = count_failure e none s

  unfoldable pub after_lookup : EndpointStatus → WebhookEndpointSnapshot → State → Stage × State
  unfolding count_failure
  after_lookup disabled e s = (ended, s)
  after_lookup active e s =
      if validate_webhook_url env.platform e.url
      then (answered e (env.answer (request env input e)), post env input e s)
      else count_failure e none s

  unfoldable pub after_count : WebhookEndpointSnapshot → Option ℕ → State → Stage × State
  unfolding disable
  after_count e status_code s =
      if should_auto_disable (e.consecutive_failures + 1) env.retry
      then (recording (delivery input e failed status_code), disable e.id s)
      else (ended, record_delivery (delivery input e failed status_code) s)

  -- From one await to the next.
  unfoldable pub advance : Stage → State → Stage × State
  unfolding after_lookup after_answer after_count
  advance (looked_up e) s = after_lookup e.status e s
  advance (answered e answer) s = after_answer e answer s
  advance (failure_counted e status_code) s = after_count e status_code s
  advance (recording d) s = (ended, record_delivery d s)
  advance ended s = (ended, s)

pub record Call : Type 0 where
  pub env : Environment
  pub input : DispatchInput
  pub stage : Stage

-- The stores, and the calls that have been made.
pub record World : Type 0 where
  pub stores : State
  pub calls : List Call

-- A call is made and reads its endpoint, or the call at this place goes on.
pub data Event : Type 0 where
  begins : Environment → DispatchInput → Event
  goes_on : (place : ℕ) → Event

-- The two errors of `dispatch` leave no call behind.
unfoldable pub with_call :
    Environment → DispatchInput → Option WebhookEndpointSnapshot → World → World
with_call env input none w = w
with_call env input (some e) w = record w {
  calls = record { env = env; input = input; stage = looked_up e } ∷ w.calls;
}

unfoldable pub begin_call : Environment → DispatchInput → World → World
unfolding with_call find_by_id
begin_call env input w =
    if is_registered env input env.registered
    then with_call env input (find_by_id input.endpoint_id w.stores) w
    else w

unfoldable pub continue_at : (place : ℕ) → List Call → State → List Call × State
unfolding advance
continue_at place [] s = ([], s)
continue_at zero (c ∷ calls) s =
    let (stage, s') = advance c.env c.input c.stage s in (record c { stage = stage } ∷ calls, s')
continue_at (suc place) (c ∷ calls) s =
    let (calls', s') = continue_at place calls s in (c ∷ calls', s')

unfoldable pub step : Event → World → World
unfolding begin_call continue_at
step (begins env input) w = begin_call env input w
step (goes_on place) w =
    let (calls, stores) = continue_at place w.calls w.stores in
    record { stores = stores; calls = calls }

unfoldable pub run : List Event → World → World
unfolding step
run [] w = w
run (e ∷ events) w = run events (step e w)
