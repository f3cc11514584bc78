-- ===== src/Webhooks/Dispatcher.antt =====
-- `WebhookDispatcher.dispatch` of core/webhooks/webhook-dispatcher.ts, over stores that are taken not
-- to fail. The declared event types, the clock and the network are inputs. This is a call that no other
-- one overlaps; Webhooks/Overlap cuts it at its awaits.
use Prim.Native.String
use nest_base.Base.{
  ℕ, ◌+◌, String, Bool, true, false, Option, none, some, List, [], ◌∷◌, ◌++◌, any, find?, str_eq,
  if◌then◌else◌,
}
use nest_base.Base.Table.{update_many}
use nest_base.Webhooks.Url.{Platform, validate_webhook_url, build_hmac_signature_header}
use nest_base.Webhooks.Retry.{RetryConfig, should_auto_disable}

pub data EndpointStatus : Type 0 where
  active disabled : EndpointStatus

pub data DeliveryStatus : Type 0 where
  delivered failed : DeliveryStatus

pub record WebhookEndpointSnapshot : Type 0 where
  pub id : String
  pub tenant_id : String
  pub url : String
  pub secret : String
  pub status : EndpointStatus
  pub consecutive_failures : ℕ

pub record DeliveryRecord : Type 0 where
  pub id : String
  pub endpoint_id : String
  pub event_id : String
  pub status : DeliveryStatus
  pub status_code : Option ℕ
  pub attempt_count : ℕ

pub record DispatchInput : Type 0 where
  pub endpoint_id : String
  pub event_id : String
  pub event_type : String
  pub body : String

-- What the network does: a response with its `ok` and `status`, or an exception.
pub data Posted : Type 0 where
  responds : (ok : Bool) (status : ℕ) → Posted
  throws : Posted

-- One HTTP request. The content type is the same for all.
pub record Request : Type 0 where
  pub url : String
  pub body : String
  pub webhook_id : String
  pub webhook_timestamp : String
  pub webhook_signature : String

-- The two stores, and the requests sent so far.
pub record State : Type 0 where
  pub endpoints : List WebhookEndpointSnapshot
  pub deliveries : List DeliveryRecord
  pub posts : List Request

pub data Dispatched : Type 0 where
  resolved : Dispatched
  event_type_not_registered : (event_type : String) (available_types : List String) → Dispatched
  endpoint_not_found : (id : String) → Dispatched

-- What one call finds around it: the declared event types, the timestamp, the answer of the network.
pub record Environment : Type 0 where
  pub retry : RetryConfig
  pub registered : List String
  pub platform : Platform
  pub ts : String
  pub answer : Request → Posted

abbrev pub has_id : String → WebhookEndpointSnapshot → Bool
has_id id endpoint = str_eq endpoint.id id

unfoldable pub find_by_id : String → State → Option WebhookEndpointSnapshot
find_by_id id s = find? (has_id id) s.endpoints

abbrev pub failures_row : ℕ → WebhookEndpointSnapshot → WebhookEndpointSnapshot
failures_row count endpoint = record endpoint { consecutive_failures = count }

unfoldable pub set_failure_count : String → ℕ → State → State
set_failure_count id count s = record s {
  endpoints = update_many (has_id id) (failures_row count) s.endpoints;
}

abbrev pub disabled_row : WebhookEndpointSnapshot → WebhookEndpointSnapshot
disabled_row endpoint = record endpoint { status = disabled }

unfoldable pub disable : String → State → State
disable id s = record s { endpoints = update_many (has_id id) disabled_row s.endpoints }

abbrev pub record_delivery : DeliveryRecord → State → State
record_delivery delivery s = record s { deliveries = s.deliveries ++ (delivery ∷ []) }

-- `${input.endpointId}::${input.eventId}`
abbrev pub delivery_id : DispatchInput → String
delivery_id input = String.◌++◌ input.endpoint_id (String.◌++◌ "::" input.event_id)

abbrev pub delivery :
    DispatchInput
    → WebhookEndpointSnapshot
    → DeliveryStatus
    → (status_code : Option ℕ) → DeliveryRecord
delivery input endpoint status status_code = record {
  id = delivery_id input;
  endpoint_id = endpoint.id;
  event_id = input.event_id;
  status = status;
  status_code = status_code;
  attempt_count = 1;
}

module _ (env : Environment) (input : DispatchInput) where
  -- The failure path: count, disable at the threshold, record.
  unfoldable pub record_failure : WebhookEndpointSnapshot → Option ℕ → State → State
  unfolding set_failure_count disable
  record_failure endpoint status_code s =
      let next_failures = endpoint.consecutive_failures + 1 in
      let counted = set_failure_count endpoint.id next_failures s in
      let checked =
        if should_auto_disable next_failures env.retry
        then disable endpoint.id counted
        else counted in
      record_delivery (delivery input endpoint failed status_code) checked

  unfoldable pub record_success : WebhookEndpointSnapshot → ℕ → State → State
  unfolding set_failure_count
  record_success endpoint status s =
      record_delivery (delivery input endpoint delivered (some status))
        (set_failure_count endpoint.id 0 s)

  abbrev pub request : WebhookEndpointSnapshot → Request
  request endpoint = record {
    url = endpoint.url;
    body = input.body;
    webhook_id = input.event_id;
    webhook_timestamp = env.ts;
    webhook_signature = build_hmac_signature_header env.platform endpoint.secret env.ts input.body;
  }

  abbrev pub post : WebhookEndpointSnapshot → State → State
  post endpoint s = record s { posts = s.posts ++ (request endpoint ∷ []) }

  unfoldable pub settle : WebhookEndpointSnapshot → Posted → State → State
  unfolding record_failure record_success
  settle endpoint (responds true status) s = record_success endpoint status s
  settle endpoint (responds false status) s = record_failure endpoint (some status) s
  settle endpoint throws s = record_failure endpoint none s

  unfoldable pub deliver : WebhookEndpointSnapshot → State → State
  unfolding settle
  deliver endpoint s =
      if validate_webhook_url env.platform endpoint.url
      then settle endpoint (env.answer (request endpoint)) (post endpoint s)
      else record_failure endpoint none s

  abbrev pub is_registered : List String → Bool
  is_registered [] = true
  is_registered (name ∷ names) = any (λ n. str_eq n input.event_type) (name ∷ names)

  unfoldable pub dispatch_to : Option WebhookEndpointSnapshot → State → Dispatched × State
  unfolding deliver
  dispatch_to none s = (endpoint_not_found input.endpoint_id, s)
  dispatch_to (some endpoint) s = elim endpoint.status [
    | disabled ↦ (resolved, s)
    | active ↦ (resolved, deliver endpoint s)
  ]

  unfoldable pub dispatch : State → Dispatched × State
  unfolding dispatch_to find_by_id
  dispatch s =
      if is_registered env.registered
      then dispatch_to (find_by_id input.endpoint_id s) s
      else (event_type_not_registered input.event_type env.registered, s)
