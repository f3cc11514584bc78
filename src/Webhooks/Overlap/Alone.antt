-- ===== src/Webhooks/Overlap/Alone.antt =====
-- A call that nothing overlaps is `dispatch`.
use nest_base.Base.{
  ℕ, zero, suc, ◌+◌, true, false, ◌≡◌, refl, sym, ap, ◌∙◌, Option, none, some, Bool-cases, inl, inr,
}
use nest_base.Webhooks.Retry.{should_auto_disable}
use nest_base.Webhooks.Url.{validate_webhook_url}
use nest_base.Webhooks.Dispatcher.{
  WebhookEndpointSnapshot, EndpointStatus, active, disabled, DispatchInput, Posted, responds,
  throws, State, Environment, request, post, record_failure, record_success, settle, deliver,
  dispatch_to,
}
use nest_base.Webhooks.Overlap.{
  Stage, looked_up, answered, ended, count_failure, after_answer, after_lookup, after_count,
  advance,
}

module _ (env : Environment) (input : DispatchInput) where
  -- The call goes on so often.
  unfoldable pub stages : ℕ → Stage → State → Stage × State
  stages zero stage s = (stage, s)
  stages (suc n) stage s = let (next, t) = advance env input stage s in stages n next t

  stages-ended : (n : ℕ) (s : State) → stages n ended s ≡ (ended, s)
  unfolding stages advance
  stages-ended zero s = refl
  stages-ended (suc n) s = stages-ended n s

  stages-failure :
      (n : ℕ) (e : WebhookEndpointSnapshot) (code : Option ℕ) (s : State)
      → stages
          (suc (suc n))
          (count_failure env input e code s).0
          (count_failure env input e code s).1
        ≡ (ended, record_failure env input e code s)
  unfolding stages advance count_failure after_count record_failure
  stages-failure n e code s =
      elim (Bool-cases (should_auto_disable (e.consecutive_failures + 1) env.retry)) [
        | inl often ↦ rw often (stages-ended n _)
        | inr seldom ↦ rw seldom (stages-ended (suc n) _)
      ]

  stages-settle :
      (e : WebhookEndpointSnapshot) (answer : Posted) (s : State)
      → stages 3 (answered e answer) s ≡ (ended, settle env input e answer s)
  unfolding stages advance after_answer settle record_success
  stages-settle e (responds true status) s = refl
  stages-settle e (responds false status) s = stages-failure 0 e (some status) s
  stages-settle e throws s = stages-failure 0 e none s

  stages-deliver :
      (e : WebhookEndpointSnapshot) (s : State)
      → stages 3 (after_lookup env input active e s).0 (after_lookup env input active e s).1
        ≡ (ended, deliver env input e s)
  unfolding after_lookup deliver
  stages-deliver e s = elim (Bool-cases (validate_webhook_url env.platform e.url)) [
    | inl valid ↦ rw valid (stages-settle e (env.answer (request env input e)) (post env input e s))
    | inr invalid ↦ rw invalid (stages-failure 1 e none s)
  ]

  dispatch_to-active :
      (e : WebhookEndpointSnapshot) (s : State)
      → e.status ≡ active
      → (dispatch_to env input (some e) s).1 ≡ deliver env input e s
  unfolding dispatch_to
  dispatch_to-active e s on = rw on refl

  dispatch_to-disabled :
      (e : WebhookEndpointSnapshot) (s : State)
      → e.status ≡ disabled
      → (dispatch_to env input (some e) s).1 ≡ s
  unfolding dispatch_to
  dispatch_to-disabled e s off = rw off refl

  by_status :
      (status : EndpointStatus) (e : WebhookEndpointSnapshot) (s : State)
      → e.status ≡ status
      → stages 3 (after_lookup env input status e s).0 (after_lookup env input status e s).1
        ≡ (ended, (dispatch_to env input (some e) s).1)
  unfolding after_lookup
  by_status active e s on =
      stages-deliver e s ∙ ap (λ t. (ended, t)) (sym (dispatch_to-active e s on))
  by_status disabled e s off =
      stages-ended 3 s ∙ ap (λ t. (ended, t)) (sym (dispatch_to-disabled e s off))

  -- A call that has read its endpoint ends after four more steps, and what they make of the stores,
  -- when no other call runs between them, is what `dispatch` makes of them.
  dispatch_to-stages :
      (e : WebhookEndpointSnapshot) (s : State)
      → stages 4 (looked_up e) s ≡ (ended, (dispatch_to env input (some e) s).1)
  unfolding stages advance
  dispatch_to-stages e s = by_status e.status e s refl
