-- ===== src/EmailOutbox/Dedup.antt =====
-- Enqueueing under an idempotency key.
use nest_base.Base.{
  ℕ, String, ◌≡◌, ◌≢◌, none, some, List, [], ◌∷◌, ◌++◌, arith, eq_iff, eq_refl, Option-cases, inl,
  inr,
}
use nest_base.EmailOutbox.Storage.{EmailOutboxRecord, append, find_by_idempotency_key}
use nest_base.EmailOutbox.Recorder.{EnqueueInput, new_record, enqueue}

module _ {P : Type 0} where
  find-append_key :
      (k : String) (r : EmailOutboxRecord P) (rows : List (EmailOutboxRecord P))
      → find_by_idempotency_key k rows ≡ none
      → r.idempotency_key ≡ some k
      → find_by_idempotency_key k (rows ++ r ∷ []) ≡ some r
  unfolding find_by_idempotency_key
  find-append_key k r [] h e = ground (arith, eq_refl k)
  find-append_key k r (q ∷ rows) h e = ground (arith, find-append_key k r rows)

  enqueue-found :
      (id : String) (now : ℕ) (input : EnqueueInput P) (k : String) (q : EmailOutboxRecord P)
      (rows : List (EmailOutboxRecord P))
      → input.idempotency_key ≡ some k
      → k ≢ ""
      → find_by_idempotency_key k rows ≡ some q
      → enqueue id now input rows ≡ some (q, rows)
  unfolding enqueue
  enqueue-found id now input k q rows key nonempty found = ground (arith, eq_iff k "")

  enqueue-finds :
      (id : String) (now : ℕ) (input : EnqueueInput P) (k : String) (r : EmailOutboxRecord P)
      (rows rows' : List (EmailOutboxRecord P))
      → input.idempotency_key ≡ some k
      → k ≢ ""
      → enqueue id now input rows ≡ some (r, rows')
      → find_by_idempotency_key k rows' ≡ some r
  unfolding enqueue append new_record
  enqueue-finds id now input k r rows rows' key nonempty h =
      elim (Option-cases (find_by_idempotency_key k rows)) [
        | inr (q, found) ↦ cc (h, found, enqueue-found id now input k q rows key nonempty found)
        | inl missing ↦
            ground
              (arith, find-append_key k (new_record id now input) rows missing key, eq_iff k "")
      ]

  -- Once a mail has been enqueued under a key that is not empty, each enqueue under the same key
  -- returns the record of the first, whatever the mail, and leaves the table as it is.
  pub enqueue-enqueue :
      (id id' : String) (now later : ℕ) (input other : EnqueueInput P) (k : String)
      (r : EmailOutboxRecord P) (rows rows' : List (EmailOutboxRecord P))
      → input.idempotency_key ≡ some k
      → other.idempotency_key ≡ some k
      → k ≢ ""
      → enqueue id now input rows ≡ some (r, rows')
      → enqueue id' later other rows' ≡ some (r, rows')
  enqueue-enqueue id id' now later input other k r rows rows' key key' nonempty h =
      enqueue-found id' later other k r rows' key' nonempty
        (enqueue-finds id now input k r rows rows' key nonempty h)
