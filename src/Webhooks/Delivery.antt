-- ===== src/Webhooks/Delivery.antt =====
-- What one call of `dispatch` does to the endpoint and to the stores.
use mathlib.Core.Path.{subst}
use nest_base.Base.{
  ℕ, ◌+◌, Bool, true, false, ◌&&◌, ◌≡◌, refl, sym, Option, none, some, List, [], ◌∷◌, ◌++◌, leb,
  arith, eq_iff, find?, if◌then◌else◌, append-nil, Bool-cases, inl, inr,
}
use nest_base.Base.Table.{update_many, find?-test, find?-update_many}
use nest_base.Webhooks.Retry.{should_auto_disable}
use nest_base.Webhooks.Url.{validate_webhook_url}
use nest_base.Webhooks.Dispatcher.{
  WebhookEndpointSnapshot, DispatchInput, Posted, responds, throws, Request, State, Environment,
  active, delivered, failed, has_id, find_by_id, failures_row, disabled_row, delivery, request,
  post, record_failure, record_success, settle, deliver, is_registered, dispatch_to, dispatch,
  set_failure_count, disable, resolved,
}

module _ (env : Environment) (input : DispatchInput) where
  abbrev pub is_ok : Posted → Bool
  is_ok (responds ok status) = ok
  is_ok throws = false

  -- The URL is valid and the endpoint's answer is ok.
  abbrev pub succeeds : WebhookEndpointSnapshot → Bool
  succeeds e = validate_webhook_url env.platform e.url && is_ok (env.answer (request env input e))

  -- The endpoint after a call: no failure counted, or one more, and disabled at the threshold.
  abbrev pub counted : WebhookEndpointSnapshot → WebhookEndpointSnapshot
  counted e =
      if succeeds e
      then failures_row 0 e
      else if leb env.retry.auto_disable_after (e.consecutive_failures + 1)
      then disabled_row (failures_row (e.consecutive_failures + 1) e)
      else failures_row (e.consecutive_failures + 1) e

  -- The requests that a call sends.
  abbrev pub sent : WebhookEndpointSnapshot → List Request
  sent e = if validate_webhook_url env.platform e.url then request env input e ∷ [] else []

  abbrev pub status_code : WebhookEndpointSnapshot → Option ℕ
  status_code e =
      if validate_webhook_url env.platform e.url
      then (elim (env.answer (request env input e)) [
        | responds ok status ↦ some status
        | throws ↦ none
      ])
      else none

  find-record_failure :
      (e : WebhookEndpointSnapshot) (code : Option ℕ) (s : State)
      → find? (has_id e.id) s.endpoints ≡ some e
      → find? (has_id e.id) (record_failure env input e code s).endpoints
        ≡ some (
            if leb env.retry.auto_disable_after (e.consecutive_failures + 1)
            then disabled_row (failures_row (e.consecutive_failures + 1) e)
            else failures_row (e.consecutive_failures + 1) e)
  unfolding record_failure set_failure_count disable should_auto_disable
  find-record_failure e code s found =
      let row = failures_row (e.consecutive_failures + 1) in
      let once = find?-update_many (has_id e.id) row (λ r h. h) e s.endpoints found in
      let twice =
        find?-update_many (has_id e.id) disabled_row (λ r h. h) (row e)
          (update_many (has_id e.id) row s.endpoints) once in
      elim (Bool-cases (leb env.retry.auto_disable_after (e.consecutive_failures + 1))) [
        | inl h ↦ rw (h, twice) refl
        | inr h ↦ rw (h, once) refl
      ]

  record_failure-stores :
      (e : WebhookEndpointSnapshot) (code : Option ℕ) (s : State)
      → ((record_failure env input e code s).deliveries
          ≡ s.deliveries ++ (delivery input e failed code ∷ []))
        × ((record_failure env input e code s).posts ≡ s.posts)
  unfolding record_failure set_failure_count disable
  record_failure-stores e code s = ground arith

  abbrev status_in : Posted → Option ℕ
  status_in (responds ok status) = some status
  status_in throws = none

  -- A state in which a call for `e` with this verdict has been recorded, and nothing else.
  abbrev pub IsRecorded : WebhookEndpointSnapshot → (ok : Bool) → Option ℕ → State → State → Type 0
  IsRecorded e ok code s t =
      (find? (has_id e.id) t.endpoints
        ≡ some (
            if ok
            then failures_row 0 e
            else if leb env.retry.auto_disable_after (e.consecutive_failures + 1)
            then disabled_row (failures_row (e.consecutive_failures + 1) e)
            else failures_row (e.consecutive_failures + 1) e))
      × (t.deliveries
          ≡ s.deliveries ++ (delivery input e (if ok then delivered else failed) code ∷ []))
      × (t.posts ≡ s.posts)

  settle-IsRecorded :
      (e : WebhookEndpointSnapshot) (p : Posted) (s : State)
      → find? (has_id e.id) s.endpoints ≡ some e
      → IsRecorded e (is_ok p) (status_in p) s (settle env input e p s)
  unfolding settle record_success set_failure_count
  settle-IsRecorded e (responds true status) s found =
      (find?-update_many (has_id e.id) (failures_row 0) (λ r h. h) e s.endpoints found, refl, refl)
  settle-IsRecorded e (responds false status) s found =
      let (deliveries, posts) = record_failure-stores e (some status) s in
      (find-record_failure e (some status) s found, deliveries, posts)
  settle-IsRecorded e throws s found =
      let (deliveries, posts) = record_failure-stores e none s in
      (find-record_failure e none s found, deliveries, posts)

  deliver-IsRecorded :
      (e : WebhookEndpointSnapshot) (s : State)
      → find? (has_id e.id) s.endpoints ≡ some e
      → IsRecorded e
          (succeeds e)
          (status_code e)
          (record s { posts = s.posts ++ sent e })
          (deliver env input e s)
  unfolding deliver
  deliver-IsRecorded e s found = elim (Bool-cases (validate_webhook_url env.platform e.url)) [
    | inl h ↦
        rw h (settle-IsRecorded e (env.answer (request env input e)) (post env input e s) found)
    | inr h ↦
        let (deliveries, posts) = record_failure-stores e none s in
        rw (h, append-nil) (find-record_failure e none s found, deliveries, posts)
  ]

  pub dispatch-deliver :
      (e : WebhookEndpointSnapshot) (s : State)
      → is_registered env input env.registered ≡ true
      → find_by_id input.endpoint_id s ≡ some e
      → e.status ≡ active
      → dispatch env input s ≡ (resolved, deliver env input e s)
  unfolding dispatch dispatch_to
  dispatch-deliver e s registered found is_active = rw (registered, found, is_active) refl

  pub dispatch-active :
      (e : WebhookEndpointSnapshot) (s : State)
      → is_registered env input env.registered ≡ true
      → find_by_id input.endpoint_id s ≡ some e
      → e.status ≡ active
      → ((dispatch env input s).0 ≡ resolved)
        × (find_by_id input.endpoint_id (dispatch env input s).1 ≡ some (counted e))
        × ((dispatch env input s).1.deliveries
            ≡ s.deliveries
              ++ (delivery input e (if succeeds e then delivered else failed) (status_code e) ∷ []))
        × ((dispatch env input s).1.posts ≡ s.posts ++ sent e)
  unfolding find_by_id
  dispatch-active e s registered found is_active =
      let same : e.id ≡ input.endpoint_id =
        (eq_iff e.id input.endpoint_id).0
          (find?-test (has_id input.endpoint_id) e s.endpoints found) in
      let (row, deliveries, posts) =
        deliver-IsRecorded e s
          (subst (λ id. find? (has_id id) s.endpoints ≡ some e) (sym same) found) in
      rw (dispatch-deliver e s registered found is_active) (
        refl,
        subst (λ id. find? (has_id id) (deliver env input e s).endpoints ≡ some (counted e)) same
            row,
        deliveries,
        posts,
      )
