-- ===== src/Outbox/Batches.antt =====
-- What `claimBatch` hands out.
use nest_base.Base.{
  ℕ, zero, suc, ◌≤◌, true, false, ◌≡◌, refl, List, [], ◌∷◌, arith, any, filter, take, All, All-take,
  All-filter_test, All-mono, length, length-take, leb, Bool-cases, inl, inr,
}
use nest_base.Base.Table.{update_many}
use nest_base.Outbox.Storage.{
  OutboxEntry, has_id, is_unprocessed, insert_entry, order_by_seq, select_batch, claim_batch,
  is_selected, inflight_row,
}

module _ {P : Type 0} where
  abbrev pub IsAscending : List (OutboxEntry P) → Type 0
  IsAscending [] = Unit
  IsAscending (e ∷ es) = All (λ d. e.seq ≤ d.seq) es × IsAscending es

  All-insert_entry :
      (Q : OutboxEntry P → Type 0) (e : OutboxEntry P) (es : List (OutboxEntry P))
      → Q e
      → All Q es
      → All Q (insert_entry e es)
  unfolding insert_entry
  All-insert_entry Q e [] h hs = (h, tt)
  All-insert_entry Q e (d ∷ es) h hs = ground (arith, All-insert_entry Q e es h hs.1)

  pub All-order_by_seq :
      (Q : OutboxEntry P → Type 0) (es : List (OutboxEntry P)) → All Q es → All Q (order_by_seq es)
  unfolding order_by_seq
  All-order_by_seq Q [] h = tt
  All-order_by_seq Q (e ∷ es) h =
      All-insert_entry Q e (order_by_seq es) h.0 (All-order_by_seq Q es h.1)

  All-le_of_le :
      (n m : ℕ) (es : List (OutboxEntry P))
      → n ≤ m
      → All (λ d. m ≤ d.seq) es
      → All (λ d. n ≤ d.seq) es
  All-le_of_le n m es le h = All-mono (λ d. m ≤ d.seq) (λ d. n ≤ d.seq) (λ d k. omega arith) es h

  insert_entry-IsAscending :
      (e : OutboxEntry P) (es : List (OutboxEntry P))
      → IsAscending es
      → IsAscending (insert_entry e es)
  unfolding insert_entry
  insert_entry-IsAscending e [] h = (tt, tt)
  insert_entry-IsAscending e (d ∷ es) h = ground (
    arith,
    insert_entry-IsAscending e es h.1,
    All-insert_entry (λ x. d.seq ≤ x.seq) e es,
    All-le_of_le e.seq d.seq es,
  )

  order_by_seq-IsAscending : (es : List (OutboxEntry P)) → IsAscending (order_by_seq es)
  unfolding order_by_seq
  order_by_seq-IsAscending [] = tt
  order_by_seq-IsAscending (e ∷ es) =
      insert_entry-IsAscending e (order_by_seq es) (order_by_seq-IsAscending es)

  take-IsAscending : (n : ℕ) (es : List (OutboxEntry P)) → IsAscending es → IsAscending (take n es)
  take-IsAscending zero es h = tt
  take-IsAscending (suc n) [] h = tt
  take-IsAscending (suc n) (e ∷ es) h =
      (All-take (λ d. e.seq ≤ d.seq) n es h.0, take-IsAscending n es h.1)

  -- A batch has at most `limit` entries, none of them processed or in flight, in the order of their
  -- numbers.
  pub claim_batch-ordered :
      (limit now : ℕ) (rows : List (OutboxEntry P))
      → (length (claim_batch limit now rows).0 ≤ limit)
        × All (λ e. is_unprocessed e ≡ true) (claim_batch limit now rows).0
        × IsAscending (claim_batch limit now rows).0
  unfolding claim_batch
  claim_batch-ordered limit now rows = elim (Bool-cases (leb limit 0)) [
    | inl empty ↦ rw empty (omega arith, tt, tt)
    | inr more ↦ rw more (
      omega (arith, length-take limit (order_by_seq (filter is_unprocessed rows))),
      All-take (λ e. is_unprocessed e ≡ true) limit _
          (All-order_by_seq (λ e. is_unprocessed e ≡ true) _
            (All-filter_test (λ e. is_unprocessed e ≡ true) is_unprocessed (λ e h. h) rows)),
      take-IsAscending limit _ (order_by_seq-IsAscending (filter is_unprocessed rows)),
    )
  ]

  -- Rows that are not in a batch, as long as they wait.
  abbrev IsOutside : List (OutboxEntry P) → OutboxEntry P → Type 0
  IsOutside batch r = is_unprocessed r ≡ true → any (has_id r.id) batch ≡ false

  update-IsOutside :
      (batch : List (OutboxEntry P)) (now : ℕ) (rows : List (OutboxEntry P))
      → All (IsOutside batch) (update_many (is_selected batch) (inflight_row now) rows)
  update-IsOutside batch now [] = tt
  update-IsOutside batch now (r ∷ rows) = (λ e. ground arith, update-IsOutside batch now rows)

  abbrev IsApart : List (OutboxEntry P) → OutboxEntry P → Type 0
  IsApart batch e = any (has_id e.id) batch ≡ false

  filter-IsApart :
      (batch rows : List (OutboxEntry P))
      → All (IsOutside batch) rows
      → All (IsApart batch) (filter is_unprocessed rows)
  filter-IsApart batch [] h = tt
  filter-IsApart batch (r ∷ rows) h = ground (arith, h.0, filter-IsApart batch rows h.1)

  claim_batch-IsApart :
      (batch : List (OutboxEntry P)) (limit now : ℕ) (rows : List (OutboxEntry P))
      → All (IsOutside batch) rows
      → All (IsApart batch) (claim_batch limit now rows).0
  unfolding claim_batch
  claim_batch-IsApart batch limit now rows h = elim (Bool-cases (leb limit 0)) [
    | inl empty ↦ rw empty tt
    | inr more ↦ rw more (
        All-take (IsApart batch) limit _
          (All-order_by_seq (IsApart batch) _ (filter-IsApart batch rows h)))
  ]

  All-IsOutside_nil : (rows : List (OutboxEntry P)) → All (IsOutside []) rows
  All-IsOutside_nil [] = tt
  All-IsOutside_nil (r ∷ rows) = (λ e. refl, All-IsOutside_nil rows)

  claimed-IsOutside :
      (limit now : ℕ) (rows : List (OutboxEntry P))
      → All (IsOutside (claim_batch limit now rows).0) (claim_batch limit now rows).1
  unfolding claim_batch
  claimed-IsOutside limit now rows = elim (Bool-cases (leb limit 0)) [
    | inl empty ↦ rw (empty, claim_batch) (All-IsOutside_nil rows)
    | inr more ↦ rw (more, claim_batch) (update-IsOutside (select_batch limit rows) now rows)
  ]

  -- Two claims in a row, by any two workers, hand out no entry twice: no entry of the second batch
  -- has the id of one in the first.
  pub claim_batch-disjoint :
      (limit limit' now later : ℕ) (rows : List (OutboxEntry P))
      → All
          (λ e. any (has_id e.id) (claim_batch limit now rows).0 ≡ false)
          (claim_batch limit' later (claim_batch limit now rows).1).0
  claim_batch-disjoint limit limit' now later rows =
      claim_batch-IsApart (claim_batch limit now rows).0 limit' later (claim_batch limit now rows).1
        (claimed-IsOutside limit now rows)
