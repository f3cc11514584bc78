-- ===== src/Erasure/Grace.antt =====
-- `planGdprGracePeriodErasures` of core/gdpr/gdpr-grace.planner.ts. A negative grace period, which the
-- source rejects, is no natural number.
use nest_base.Base.{
  ℕ, ◌+◌, ◌*◌, ◌≤◌, String, Bool, not, ◌&&◌, ◌||◌, ◌≡◌, refl, ◌∙◌, Option, none, some, List, [],
  ◌∷◌, ◌++◌, map, append-nil, append_assoc, leb, is_some, filter, All, All-map, All-filter_test,
  arith, if◌then◌else◌, Bool-cases, inl, inr,
}

pub record PendingErasureRecord : Type 0 where
  pub id : String
  pub user_id : String
  pub requested_at : ℕ
  pub cancelled_at : Option ℕ
  pub completed_at : Option ℕ

pub record GraceErasureCandidate : Type 0 where
  pub id : String
  pub user_id : String
  pub requested_at : ℕ
  pub grace_expired_at : ℕ

pub record GracePlanOutput : Type 0 where
  pub ready_for_erasure : List GraceErasureCandidate
  pub still_in_grace : List PendingErasureRecord
  pub skipped : List PendingErasureRecord

abbrev pub default_grace_period_ms : ℕ
default_grace_period_ms = 30 * 24 * 60 * 60 * 1000

abbrev pub period : Option ℕ → ℕ
period none = default_grace_period_ms
period (some ms) = ms

abbrev pub candidate : (grace : ℕ) → PendingErasureRecord → GraceErasureCandidate
candidate grace r = record {
  id = r.id;
  user_id = r.user_id;
  requested_at = r.requested_at;
  grace_expired_at = r.requested_at + grace;
}

-- One round of the loop.
unfoldable pub sort_record :
    (grace now : ℕ) → PendingErasureRecord → GracePlanOutput → GracePlanOutput
sort_record grace now r out =
    if is_some r.cancelled_at || is_some r.completed_at
    then record out { skipped = out.skipped ++ (r ∷ []) }
    else if leb (r.requested_at + grace) now
    then record out { ready_for_erasure = out.ready_for_erasure ++ (candidate grace r ∷ []) }
    else record out { still_in_grace = out.still_in_grace ++ (r ∷ []) }

unfoldable pub sort_records :
    (grace now : ℕ) → List PendingErasureRecord → GracePlanOutput → GracePlanOutput
unfolding sort_record
sort_records grace now [] out = out
sort_records grace now (r ∷ rs) out = sort_records grace now rs (sort_record grace now r out)

unfoldable pub plan_gdpr_grace_period_erasures :
    (grace_period_ms : Option ℕ) (now : ℕ) → List PendingErasureRecord → GracePlanOutput
unfolding sort_records
plan_gdpr_grace_period_erasures grace_period_ms now pending =
    sort_records (period grace_period_ms) now pending
      (record { ready_for_erasure = []; still_in_grace = []; skipped = [] })

-- A request that has been withdrawn or carried out.
abbrev pub is_closed : PendingErasureRecord → Bool
is_closed r = is_some r.cancelled_at || is_some r.completed_at

abbrev pub is_due : (grace now : ℕ) → PendingErasureRecord → Bool
is_due grace now r = not (is_closed r) && leb (r.requested_at + grace) now

abbrev pub is_waiting : (grace now : ℕ) → PendingErasureRecord → Bool
is_waiting grace now r = not (is_closed r) && not (leb (r.requested_at + grace) now)

-- What the loop adds to the three lists.
abbrev sorted : (grace now : ℕ) → List PendingErasureRecord → GracePlanOutput → GracePlanOutput
sorted grace now rs out = record {
  ready_for_erasure = out.ready_for_erasure ++ map (candidate grace) (filter (is_due grace now) rs);
  still_in_grace = out.still_in_grace ++ filter (is_waiting grace now) rs;
  skipped = out.skipped ++ filter is_closed rs;
}

sorted-one :
    (grace now : ℕ) (r : PendingErasureRecord) (rs : List PendingErasureRecord)
    (out : GracePlanOutput)
    → sorted grace now rs (sort_record grace now r out) ≡ sorted grace now (r ∷ rs) out
unfolding sort_record
sorted-one grace now r rs out = elim (Bool-cases (is_closed r)) [
  | inl e ↦ rw (e, append_assoc) refl
  | inr e ↦ elim (Bool-cases (leb (r.requested_at + grace) now)) [
    | inl f ↦ rw (e, f, append_assoc) refl
    | inr f ↦ rw (e, f, append_assoc) refl
  ]
]

sort_records-sorted :
    (grace now : ℕ) (rs : List PendingErasureRecord) (out : GracePlanOutput)
    → sort_records grace now rs out ≡ sorted grace now rs out
unfolding sort_records
sort_records-sorted grace now [] out = simp append-nil
sort_records-sorted grace now (r ∷ rs) out =
    sort_records-sorted grace now rs (sort_record grace now r out) ∙ sorted-one grace now r rs out

-- The planner sorts the requests, in their order: those neither withdrawn nor carried out whose grace
-- period is over are ready, with the time it ended, those inside it wait, and the others are skipped.
pub plan_gdpr_grace_period_erasures-sorted :
    (ms : Option ℕ) (now : ℕ) (pending : List PendingErasureRecord)
    → plan_gdpr_grace_period_erasures ms now pending ≡ record {
      ready_for_erasure = map (candidate (period ms)) (filter (is_due (period ms) now) pending);
      still_in_grace = filter (is_waiting (period ms) now) pending;
      skipped = filter is_closed pending;
    }
unfolding plan_gdpr_grace_period_erasures
plan_gdpr_grace_period_erasures-sorted ms now pending =
    sort_records-sorted (period ms) now pending
      (record { ready_for_erasure = []; still_in_grace = []; skipped = [] })

-- Nobody is erased before the grace period that the request started is over.
pub ready_for_erasure_on_time :
    (ms : Option ℕ) (now : ℕ) (pending : List PendingErasureRecord)
    → All
        (λ c. (c.grace_expired_at ≡ c.requested_at + period ms) × (c.grace_expired_at ≤ now))
        (plan_gdpr_grace_period_erasures ms now pending).ready_for_erasure
ready_for_erasure_on_time ms now pending =
    rw (plan_gdpr_grace_period_erasures-sorted ms now pending) (
      All-map (λ c. (c.grace_expired_at ≡ c.requested_at + period ms) × (c.grace_expired_at ≤ now))
        (candidate (period ms)) (filter (is_due (period ms) now) pending)
        (All-filter_test
          (λ r.
            (r.requested_at + period ms ≡ r.requested_at + period ms)
            × (r.requested_at + period ms ≤ now))
          (is_due (period ms) now) (λ r h. (refl, ground arith)) pending))
