-- ===== src/Webhooks/Tests.antt =====
-- Runs of the webhook dispatcher, and its theorems at concrete inputs.
use Prim.Native.String.{◌++◌ as append}
use nest_base.Base.{ℕ, ◌+◌, ◌≤◌, true, false, ◌≡◌, refl, some, List, [], ◌∷◌, ◌++◌, arith, length}
use nest_base.Base.Text.{starts_with}
use nest_base.Webhooks.Retry.{
  should_auto_disable, webhook_retry_defaults, compute_retry_delay_ms, compute_retry_delay_ms_mono,
}
use nest_base.Webhooks.Url.{Platform, is_blocked, validate_webhook_url}
use nest_base.Webhooks.Dispatcher.{
  WebhookEndpointSnapshot, DispatchInput, Posted, responds, throws, State, Environment, active,
  disabled, find_by_id, Request,
}
use nest_base.Webhooks.Disabling.{dispatch_all, status_of, dispatch_all-disables}
use nest_base.Webhooks.Overlap.{World, Event, begins, goes_on, looked_up, run}
use nest_base.Webhooks.Overlap.Quiet.{IsOff, all_waiting, run-IsOff}

compute_retry_delay_ms_mono_example :
    (d : ℕ) × (e : ℕ) × (compute_retry_delay_ms 3 webhook_retry_defaults ≡ some d)
    × (compute_retry_delay_ms 4 webhook_retry_defaults ≡ some e)
    × (d ≤ e)
    × (e ≤ 7_200_000)
compute_retry_delay_ms_mono_example =
    compute_retry_delay_ms_mono 3 4 webhook_retry_defaults (omega arith) (omega arith) (omega arith)

third_attempt : compute_retry_delay_ms 3 webhook_retry_defaults ≡ some 1_500_000
unfolding compute_retry_delay_ms
third_attempt = refl

-- Every text is a host of its own.
abbrev plain : Platform
plain = record {
  parse_url = λ url. some (record { protocol = "https:"; hostname = url });
  to_lower_case = λ s. s;
  hmac_sha256_base64 = λ secret text. append secret text;
}

private_host : validate_webhook_url plain "172.20.0.1" ≡ false
unfolding validate_webhook_url is_blocked starts_with
private_host = refl

public_host : validate_webhook_url plain "172.32.0.1" ≡ true
unfolding validate_webhook_url is_blocked starts_with
public_host = refl

-- 100.64.0.0/10, the range of RFC 6598, reaches up to 100.127.255.255.
carrier_nat_passes : validate_webhook_url plain "100.65.0.1" ≡ true
unfolding validate_webhook_url is_blocked starts_with
carrier_nat_passes = refl

abbrev answers : (Request → Posted) → Environment
answers answer = record {
  retry = webhook_retry_defaults;
  registered = "user.created" ∷ [];
  platform = plain;
  ts = "17";
  answer = answer;
}

abbrev endpoint : WebhookEndpointSnapshot
endpoint = record {
  id = "e";
  tenant_id = "t";
  url = "example.org";
  secret = "s";
  status = active;
  consecutive_failures = 3;
}

abbrev start : State
start = record { endpoints = endpoint ∷ []; deliveries = []; posts = [] }

abbrev event : DispatchInput
event = record { endpoint_id = "e"; event_id = "v"; event_type = "user.created"; body = "b" }

abbrev ok_answer : Environment
ok_answer = answers (λ r. responds true 204)

abbrev refuses : Environment × DispatchInput
refuses = (answers (λ r. responds false 500), event)

abbrev breaks : Environment × DispatchInput
breaks = (answers (λ r. throws), event)

dispatch_all-disables_example :
    status_of (find_by_id "e" (dispatch_all (refuses ∷ breaks ∷ refuses ∷ []) start))
    ≡ some disabled
unfolding find_by_id
dispatch_all-disables_example =
    dispatch_all-disables "e" 5 (refuses ∷ breaks ∷ refuses ∷ []) endpoint start
      (
        (refl, refl, (λ r. refl), refl),
        ((refl, refl, (λ r. refl), refl), ((refl, refl, (λ r. refl), refl), tt)),
      )
      refl refl (omega arith) (omega arith)

-- Two calls read the endpoint before either writes: both fail, and one failure is counted.
overlap_counts_once :
    find_by_id "e"
      (run
        (begins refuses.0 event
          ∷ begins refuses.0 event
          ∷ goes_on 0
          ∷ goes_on 1
          ∷ goes_on 0
          ∷ goes_on 1
          ∷ goes_on 0
          ∷ goes_on 1
          ∷ [])
        (record { stores = start; calls = [] })).stores
    ≡ some (record endpoint { consecutive_failures = 4 })
unfolding run find_by_id validate_webhook_url is_blocked starts_with should_auto_disable
overlap_counts_once = refl

-- The endpoint has been disabled since a call read it.
abbrev late : World
late = record {
  stores = record start { endpoints = record endpoint { status = disabled } ∷ [] };
  calls = record { env = refuses.0; input = event; stage = looked_up endpoint } ∷ [];
}

abbrev two_more : List Event
two_more = begins refuses.0 event ∷ goes_on 0 ∷ goes_on 1 ∷ []

run-IsOff_example :
    IsOff "e" (run two_more late).stores
    × (length (run two_more late).stores.posts ≤ length late.stores.posts + all_waiting late.calls)
unfolding find_by_id
run-IsOff_example = run-IsOff "e" two_more late (refl, (tt, (tt, tt))) refl

late_request : length (run two_more late).stores.posts ≡ 1
unfolding run find_by_id validate_webhook_url is_blocked starts_with should_auto_disable
late_request = refl
