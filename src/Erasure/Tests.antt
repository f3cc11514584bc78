-- ===== src/Erasure/Tests.antt =====
-- A run of the grace-period planner, and its theorems at concrete inputs.
use nest_base.Base.{◌+◌, ◌≤◌, ◌≡◌, refl, some, none, List, [], ◌∷◌, All, map, filter}
use nest_base.Erasure.Grace.{
  PendingErasureRecord, candidate, is_due, is_waiting, is_closed, sort_record, sort_records,
  plan_gdpr_grace_period_erasures, plan_gdpr_grace_period_erasures-sorted,
  ready_for_erasure_on_time,
}

abbrev asked : PendingErasureRecord
asked = record {
  id = "r";
  user_id = "u";
  requested_at = 10;
  cancelled_at = none;
  completed_at = none;
}

abbrev pending : List PendingErasureRecord
pending =
    asked ∷ (record asked { requested_at = 70 }) ∷ (record asked { cancelled_at = some 20 }) ∷ []

plan_of_three : plan_gdpr_grace_period_erasures (some 50) 60 pending ≡ record {
  ready_for_erasure = candidate 50 asked ∷ [];
  still_in_grace = (record asked { requested_at = 70 }) ∷ [];
  skipped = (record asked { cancelled_at = some 20 }) ∷ [];
}
unfolding plan_gdpr_grace_period_erasures sort_records sort_record
plan_of_three = refl

plan_gdpr_grace_period_erasures-sorted_example :
    plan_gdpr_grace_period_erasures (some 50) 60 pending ≡ record {
      ready_for_erasure = map (candidate 50) (filter (is_due 50 60) pending);
      still_in_grace = filter (is_waiting 50 60) pending;
      skipped = filter is_closed pending;
    }
plan_gdpr_grace_period_erasures-sorted_example =
    plan_gdpr_grace_period_erasures-sorted (some 50) 60 pending

ready_for_erasure_on_time_example :
    All
      (λ c. (c.grace_expired_at ≡ c.requested_at + 50) × (c.grace_expired_at ≤ 60))
      (plan_gdpr_grace_period_erasures (some 50) 60 pending).ready_for_erasure
ready_for_erasure_on_time_example = ready_for_erasure_on_time (some 50) 60 pending
