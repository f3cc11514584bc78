-- ===== src/EmailOutbox/Claims.antt =====
-- Which records a worker picks up, and that no two workers hold a claim at once.
use nest_base.Base.{
  ℕ, ◌+◌, String, Bool, true, false, ◌≡◌, refl, ap, some, List, [], ◌∷◌, arith, eq_iff, ltb, min,
  str_eq, any, filter, length, All, All-take, All-filter_test, ◌∙◌, length-take,
}
use mathlib.Core.Path.{fun_ext}
use nest_base.Base.Table.{update_many}
use nest_base.EmailOutbox.Planner.{should_dispatch_now, stale_claim_threshold_ms}
use nest_base.EmailOutbox.Storage.{
  EmailOutboxRecord, claim, claimable, is_dispatchable, insert_row, order_rows, list_dispatchable,
}

module _ {P : Type 0} where
  -- `id` is the primary key.
  abbrev pub HasUniqueIds : List (EmailOutboxRecord P) → Type 0
  HasUniqueIds [] = Unit
  HasUniqueIds (r ∷ rows) = (any (λ q. str_eq q.id r.id) rows ≡ false) × HasUniqueIds rows

  abbrev claimed : String → ℕ → List (EmailOutboxRecord P) → List (EmailOutboxRecord P)
  claimed id t = update_many (claimable id t) (λ r. record r { claimed_at = some t })

  claimable-absent :
      (id : String) (t u : ℕ) (rows : List (EmailOutboxRecord P))
      → any (λ q. str_eq q.id id) rows ≡ false
      → any (claimable id u) (claimed id t rows) ≡ false
  claimable-absent id t u [] h = refl
  claimable-absent id t u (r ∷ rows) h = ground (arith, claimable-absent id t u rows)

  not-claimable :
      (id : String) (t : ℕ) (rows : List (EmailOutboxRecord P))
      → any (λ q. str_eq q.id id) rows ≡ false
      → any (claimable id t) rows ≡ false
  not-claimable id t [] h = refl
  not-claimable id t (r ∷ rows) h = ground (arith, not-claimable id t rows)

  pub any-id :
      (id id' : String) (rows : List (EmailOutboxRecord P))
      → id ≡ id'
      → any (λ q. str_eq q.id id) rows ≡ any (λ q. str_eq q.id id') rows
  any-id id id' rows e = ap (λ k. any (λ q. str_eq q.id k) rows) e

  -- After a claim at `t` has succeeded, a claim of the same record at `u` succeeds exactly when the
  -- first is stale by then, more than the 30 seconds of the threshold old.
  pub claim-claim :
      (id : String) (t u : ℕ) (rows : List (EmailOutboxRecord P))
      → HasUniqueIds rows
      → (claim id t rows).0 ≡ true
      → (claim id u (claim id t rows).1).0 ≡ ltb (t + stale_claim_threshold_ms) u
  unfolding claim
  claim-claim id t u [] unique h = cc
  claim-claim id t u (r ∷ rows) unique h = ground (
    arith,
    claim-claim id t u rows unique.1,
    claimable-absent id t u rows,
    not-claimable id t rows,
    eq_iff r.id id,
    any-id r.id id rows,
  )

  is_dispatchable-eq :
      (now : ℕ) (r : EmailOutboxRecord P)
      → is_dispatchable now r ≡ should_dispatch_now r.status r.next_attempt_at r.claimed_at now
  unfolding is_dispatchable should_dispatch_now
  is_dispatchable-eq now r = ground arith

  abbrev pub is_wanted : ℕ → EmailOutboxRecord P → Bool
  is_wanted now r = should_dispatch_now r.status r.next_attempt_at r.claimed_at now

  length-insert_row :
      (r : EmailOutboxRecord P) (rows : List (EmailOutboxRecord P))
      → length (insert_row r rows) ≡ length rows + 1
  unfolding insert_row
  length-insert_row r [] = omega arith
  length-insert_row r (q ∷ rows) = ground (arith, length-insert_row r rows)

  length-order_rows : (rows : List (EmailOutboxRecord P)) → length (order_rows rows) ≡ length rows
  unfolding order_rows
  length-order_rows [] = refl
  length-order_rows (r ∷ rows) =
      omega (arith, length-insert_row r (order_rows rows), length-order_rows rows)

  All-insert_row :
      (Q : EmailOutboxRecord P → Type 0) (r : EmailOutboxRecord P)
      (rows : List (EmailOutboxRecord P))
      → Q r
      → All Q rows
      → All Q (insert_row r rows)
  unfolding insert_row
  All-insert_row Q r [] h hs = (h, tt)
  All-insert_row Q r (q ∷ rows) h hs = ground (arith, All-insert_row Q r rows h hs.1)

  All-order_rows :
      (Q : EmailOutboxRecord P → Type 0) (rows : List (EmailOutboxRecord P))
      → All Q rows
      → All Q (order_rows rows)
  unfolding order_rows
  All-order_rows Q [] h = tt
  All-order_rows Q (r ∷ rows) h =
      All-insert_row Q r (order_rows rows) h.0 (All-order_rows Q rows h.1)

  filter-is_dispatchable :
      (now : ℕ) (rows : List (EmailOutboxRecord P))
      → filter (is_dispatchable now) rows ≡ filter (is_wanted now) rows
  filter-is_dispatchable now rows = ap (λ p. filter p rows) (fun_ext (is_dispatchable-eq now))

  -- The query of the storage and the planner's `shouldDispatchNow` agree: every listed record is one
  -- that the planner wants dispatched at `now`, and the list has as many of these as there are, up
  -- to the limit.
  pub list_dispatchable-wanted :
      (now limit : ℕ) (rows : List (EmailOutboxRecord P))
      → All (λ r. is_wanted now r ≡ true) (list_dispatchable now limit rows)
        × (length (list_dispatchable now limit rows)
            ≡ min limit (length (filter (is_wanted now) rows)))
  unfolding list_dispatchable
  list_dispatchable-wanted now limit rows = rw (filter-is_dispatchable now rows) (
    All-take (λ r. is_wanted now r ≡ true) limit _
        (All-order_rows (λ r. is_wanted now r ≡ true) _
          (All-filter_test (λ r. is_wanted now r ≡ true) (is_wanted now) (λ r e. e) rows)),
    length-take limit _ ∙ ap (min limit) (length-order_rows (filter (is_wanted now) rows)),
  )
