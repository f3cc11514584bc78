-- ===== src/EmailOutbox/Tests.antt =====
-- Runs of the mail outbox, and its theorems at concrete inputs.
use mathlib.Core.Bool.{false≢true}
use nest_base.Base.{
  ℕ, ◌+◌, ◌≤◌, String, ◌≡◌, ◌↔◌, ◌⊎◌, refl, true, false, none, some, List, [], ◌∷◌, ◌++◌, zero, suc,
  arith, All, eq_iff, length, filter, min,
}
use nest_base.EmailOutbox.Planner.{
  pending, sent, permanent, transient, terminal, default_email_outbox_retry, plan_email_retry,
  should_dispatch_now, retry, cancel, plan_outbox_admin_action,
}
use nest_base.EmailOutbox.Storage.{
  send, EmailOutboxRecord, claim, list_dispatchable, find_by_id, mark_retry, mark_cancelled, append,
  find_by_idempotency_key, mark_sent, record_transient_failure,
}
use nest_base.EmailOutbox.Recorder.{EnqueueInput, new_record, enqueue}
use nest_base.EmailOutbox.Worker.{
  Attempt, goes_on, run_once, process_candidates, classify_error_kind,
}
use nest_base.EmailOutbox.Backoff.{plan_email_retry-terminal_iff, plan_email_retry_mono}
use nest_base.EmailOutbox.Claims.{claim-claim, is_wanted}
use nest_base.EmailOutbox.Consistency.{TickAll, run_once-IsConsistent}
use nest_base.EmailOutbox.Counts.{TickTotal, run_once-total}
use nest_base.EmailOutbox.Claims.{list_dispatchable-wanted}
use nest_base.EmailOutbox.Admin.{planned-done, planned-found, is_allowed}
use nest_base.EmailOutbox.Dedup.{enqueue-enqueue}

plan_email_retry-terminal_iff_example :
    (plan_email_retry 5 transient 0 default_email_outbox_retry ≡ terminal)
    ↔ ((transient ≡ permanent) ⊎ (5 ≤ 5))
plan_email_retry-terminal_iff_example =
    plan_email_retry-terminal_iff 5 transient 0 default_email_outbox_retry (omega arith)

-- 1 minute after the first failure, 25 minutes after the third.
plan_email_retry_mono_example :
    (1000 ≤ 61_000) × (61_000 ≤ 1_501_000) × (1_501_000 ≤ 1000 + 7_200_000)
unfolding plan_email_retry
plan_email_retry_mono_example =
    plan_email_retry_mono 1 3 transient 1000 default_email_outbox_retry {t = 61_000} {u = 1_501_000}
      (omega arith) (omega arith) refl refl

abbrev mail : String → EmailOutboxRecord String
mail id = record {
  id = id;
  kind = send;
  payload = "hello";
  idempotency_key = none;
  status = pending;
  attempt_count = 0;
  next_attempt_at = none;
  claimed_at = none;
  last_error = none;
  succeeded_at = none;
  failed_at = none;
  created_at = 10;
  updated_at = 10;
}

abbrev queue : List (EmailOutboxRecord String)
queue = mail "b" ∷ mail "a" ∷ []

claim-claim_example : (claim "a" 45_001 (claim "a" 15_000 queue).1).0 ≡ true
unfolding claim
claim-claim_example = claim-claim "a" 15_000 45_001 queue (refl, (refl, tt)) refl

claim_too_early : (claim "a" 45_000 (claim "a" 15_000 queue).1).0 ≡ false
unfolding claim
claim_too_early = refl

listed_by_id : list_dispatchable 20 5 queue ≡ mail "a" ∷ mail "b" ∷ []
unfolding list_dispatchable
listed_by_id = refl

list_dispatchable-wanted_example :
    All (λ r. is_wanted 20 r ≡ true) (list_dispatchable 20 1 queue)
    × (length (list_dispatchable 20 1 queue) ≡ min 1 (length (filter (is_wanted 20) queue)))
list_dispatchable-wanted_example = list_dispatchable-wanted 20 1 queue

-- The first mail is sent; the second meets a closed connection.
abbrev attempts : ℕ → Attempt
attempts zero = record {
  claimed_at = 20;
  claim_fails = false;
  dispatch_error = none;
  sent_at = 30;
  mark_sent_error = none;
  planned_at = 30;
  failed_at = 30;
  record_fails = false;
}
attempts (suc n) = record {
  claimed_at = 40;
  claim_fails = false;
  dispatch_error = some (record { kind = none; message = "closed" });
  sent_at = 50;
  mark_sent_error = none;
  planned_at = 50;
  failed_at = 50;
  record_fails = false;
}

abbrev after_tick : List (EmailOutboxRecord String)
after_tick =
    (record (mail "b") {
      attempt_count = 1;
      next_attempt_at = some 60_050;
      last_error = some "closed";
    })
    ∷ (record (mail "a") { status = sent; succeeded_at = some 30 })
    ∷ []

tick :
    run_once default_email_outbox_retry 20 5 false attempts queue
    ≡ goes_on after_tick (record { sent = 1; retry = 1; dead_letter = 0 })
unfolding run_once list_dispatchable process_candidates claim mark_sent record_transient_failure
    plan_email_retry classify_error_kind
tick = refl

run_once-IsConsistent_example :
    TickAll default_email_outbox_retry
      (run_once default_email_outbox_retry 20 5 false attempts queue)
run_once-IsConsistent_example =
    run_once-IsConsistent default_email_outbox_retry 20 5 false attempts queue (omega arith)

run_once-total_example : TickTotal 5 (run_once default_email_outbox_retry 20 5 false attempts queue)
run_once-total_example = run_once-total default_email_outbox_retry 20 5 false attempts queue

planned-done_example :
    ((mark_retry "a" 90 after_tick).0 ≡ is_allowed (plan_outbox_admin_action retry sent))
    × ((mark_cancelled "a" 90 after_tick).0 ≡ is_allowed (plan_outbox_admin_action cancel sent))
unfolding find_by_id
planned-done_example =
    planned-done "a" 90 (record (mail "a") { status = sent; succeeded_at = some 30 }) after_tick
      (refl, (refl, tt)) refl

planned-found_example :
    ((q : EmailOutboxRecord String) × (find_by_id "b" (mark_retry "b" 90 after_tick).1 ≡ some q)
      × (q.attempt_count ≡ 0)
      × (should_dispatch_now q.status q.next_attempt_at q.claimed_at 91 ≡ true))
    × ((q : EmailOutboxRecord String) × (find_by_id "b" (mark_cancelled "b" 90 after_tick).1
          ≡ some q)
        × (should_dispatch_now q.status q.next_attempt_at q.claimed_at 91 ≡ false))
unfolding find_by_id plan_outbox_admin_action
planned-found_example =
    planned-found "b" 90 91
      (record (mail "b") {
        attempt_count = 1;
        next_attempt_at = some 60_050;
        last_error = some "closed";
      })
      after_tick refl refl

abbrev welcome : EnqueueInput String
welcome = record { kind = send; payload = "welcome"; idempotency_key = some "u1" }

abbrev reminder : EnqueueInput String
reminder = record { kind = send; payload = "reminder"; idempotency_key = some "u1" }

enqueue-enqueue_example :
    enqueue "d" 80 reminder (queue ++ new_record "c" 70 welcome ∷ [])
    ≡ some (new_record "c" 70 welcome, queue ++ new_record "c" 70 welcome ∷ [])
unfolding enqueue find_by_idempotency_key append new_record
enqueue-enqueue_example =
    enqueue-enqueue "c" "d" 70 80 welcome reminder "u1" (new_record "c" 70 welcome) queue
      (queue ++ new_record "c" 70 welcome ∷ []) refl refl (λ e. false≢true ((eq_iff "u1" "").1 e))
      refl
