-- ===== src/EmailOutbox/Admin.antt =====
-- The operator's actions of email-outbox-action-planner.ts against the statements that carry them out.
use nest_base.Base.{
  ℕ, String, Bool, true, false, ◌≡◌, refl, some, List, [], ◌∷◌, arith, eq_iff, str_eq, any,
  if◌then◌else◌,
}
use nest_base.EmailOutbox.Planner.{
  retry, cancel, Decision, allowed, refused, plan_outbox_admin_action, should_dispatch_now,
}
use nest_base.EmailOutbox.Storage.{
  EmailOutboxRecord, find_by_id, mark_retry, mark_cancelled, retryable, retried_row, cancelled_row,
  is_retryable,
}
use nest_base.EmailOutbox.Claims.{HasUniqueIds, any-id}

abbrev pub is_allowed : Decision → Bool
is_allowed allowed = true
is_allowed (refused reason) = false

module _ {P : Type 0} (id : String) (at : ℕ) where
  not-retryable :
      (rows : List (EmailOutboxRecord P))
      → any (λ q. str_eq q.id id) rows ≡ false
      → any (retryable id) rows ≡ false
  not-retryable [] h = refl
  not-retryable (r ∷ rows) h = ground (arith, not-retryable rows)

  any-retryable :
      (r : EmailOutboxRecord P) (rows : List (EmailOutboxRecord P))
      → HasUniqueIds rows
      → find_by_id id rows ≡ some r
      → any (retryable id) rows ≡ is_retryable r.status
  unfolding find_by_id
  any-retryable r [] unique h = cc
  any-retryable r (q ∷ rows) unique h = ground (
    arith,
    any-retryable r rows unique.1,
    not-retryable rows,
    eq_iff q.id id,
    any-id q.id id rows,
  )

  -- The statements of retry and cancel change the record exactly when the planner allows the action
  -- in the status that the record has.
  pub planned-done :
      (r : EmailOutboxRecord P) (rows : List (EmailOutboxRecord P))
      → HasUniqueIds rows
      → find_by_id id rows ≡ some r
      → ((mark_retry id at rows).0 ≡ is_allowed (plan_outbox_admin_action retry r.status))
        × ((mark_cancelled id at rows).0 ≡ is_allowed (plan_outbox_admin_action cancel r.status))
  unfolding mark_retry mark_cancelled plan_outbox_admin_action
  planned-done r rows unique h = rw (any-retryable r rows unique h) (ground arith, ground arith)

  find-mark_retry :
      (r : EmailOutboxRecord P) (rows : List (EmailOutboxRecord P))
      → find_by_id id rows ≡ some r
      → find_by_id id (mark_retry id at rows).1
        ≡ some (if is_retryable r.status then retried_row at r else r)
  unfolding find_by_id mark_retry
  find-mark_retry r [] h = cc
  find-mark_retry r (q ∷ rows) h = ground (arith, find-mark_retry r rows)

  find-mark_cancelled :
      (r : EmailOutboxRecord P) (rows : List (EmailOutboxRecord P))
      → find_by_id id rows ≡ some r
      → find_by_id id (mark_cancelled id at rows).1
        ≡ some (if is_retryable r.status then cancelled_row at r else r)
  unfolding find_by_id mark_cancelled
  find-mark_cancelled r [] h = cc
  find-mark_cancelled r (q ∷ rows) h = ground (arith, find-mark_cancelled r rows)

  -- A retry that the planner allows leaves a record with no attempts counted, which the worker wants
  -- at any time. A cancel that it allows leaves one that the worker never wants.
  pub planned-found :
      (now : ℕ) (r : EmailOutboxRecord P) (rows : List (EmailOutboxRecord P))
      → find_by_id id rows ≡ some r
      → is_allowed (plan_outbox_admin_action retry r.status) ≡ true
      → ((q : EmailOutboxRecord P) × (find_by_id id (mark_retry id at rows).1 ≡ some q)
          × (q.attempt_count ≡ 0)
          × (should_dispatch_now q.status q.next_attempt_at q.claimed_at now ≡ true))
        × ((q : EmailOutboxRecord P) × (find_by_id id (mark_cancelled id at rows).1 ≡ some q)
            × (should_dispatch_now q.status q.next_attempt_at q.claimed_at now ≡ false))
  unfolding plan_outbox_admin_action should_dispatch_now
  planned-found now r rows found h =
      let open_status : is_retryable r.status ≡ true = ground arith in
      (
        (retried_row at r, (rw (find-mark_retry r rows found, open_status)), refl, refl),
        (cancelled_row at r, (rw (find-mark_cancelled r rows found, open_status)), refl),
      )
