-- ===== src/EmailOutbox/Order.antt =====
-- The order in which `listFiltered` reads the rows, and the rows behind a cursor.
use Prim.Native.String.{String}
use nest_base.Base.{
  ℕ, zero, suc, ◌≤◌, ◌<◌, Bool, true, false, ◌&&◌, some, List, [], ◌∷◌, ◌++◌, All, All-filter,
  All-mono, length, take, filter, ◌≡◌, ◌≢◌, ◌⊎◌, refl, ap, Bool-cases, inl, inr, arith,
}
use nest_base.EmailOutbox.Storage.{EmailOutboxRecord}
use nest_base.EmailOutbox.Listing.{cursor_record, last_of, is_behind, insert_by, order_by}

-- Ids are the table's primary key.
abbrev pub AreDistinct : {P : Type 0} → List (EmailOutboxRecord P) → Type 0
AreDistinct [] = Unit
AreDistinct (r ∷ rows) = All (λ q. q.id ≢ r.id) rows × AreDistinct rows

module _ {R : Type 0} where
  pub and_true : (p : R → Bool) (rows : List R) → filter (λ r. p r && true) rows ≡ filter p rows
  and_true p [] = refl
  and_true p (r ∷ rows) = ground (arith, and_true p rows)

  pub length-filter_le : (p : R → Bool) (rows : List R) → length (filter p rows) ≤ length rows
  length-filter_le p [] = omega arith
  length-filter_le p (r ∷ rows) = ground (arith, length-filter_le p rows)

  pub filter-filter :
      (p q : R → Bool) (rows : List R) → filter (λ r. p r && q r) rows ≡ filter q (filter p rows)
  filter-filter p q [] = refl
  filter-filter p q (r ∷ rows) = ground (arith, filter-filter p q rows)

  filter-every : (p : R → Bool) (rows : List R) → All (λ r. p r ≡ true) rows → filter p rows ≡ rows
  filter-every p [] h = refl
  filter-every p (r ∷ rows) h = rw h.0 (ap (λ xs. r ∷ xs) (filter-every p rows h.1))

  pub take-everything : (n : ℕ) (rows : List R) → length rows ≤ n → take n rows ≡ rows
  take-everything zero [] h = refl
  take-everything zero (r ∷ rows) h = absurd (omega arith)
  take-everything (suc n) [] h = refl
  take-everything (suc n) (r ∷ rows) h = ap (λ xs. r ∷ xs) (take-everything n rows (omega arith))

  -- A page that is full ends with some row, and the others follow it.
  pub full_page :
      (limit : ℕ) (rows : List R)
      → suc limit < length rows
      → (init : List R) × (x : R) × (rest : List R) × (rows ≡ init ++ (x ∷ rest))
        × (take (suc limit) (take (suc (suc limit)) rows) ≡ init ++ (x ∷ []))
        × (length rest < length rows)
  full_page limit [] h = absurd (omega arith)
  full_page zero (x ∷ []) h = absurd (omega arith)
  full_page zero (x ∷ y ∷ rows) h = ([], x, y ∷ rows, refl, refl, omega arith)
  full_page (suc limit) (y ∷ rows) h =
      let (init, x, rest, whole, page, fewer) = full_page limit rows (omega arith) in
      (y ∷ init, x, rest, ap (λ xs. y ∷ xs) whole, ap (λ xs. y ∷ xs) page, omega (arith, fewer))

  All-middle :
      (Q : R → Type 0) (before : List R) (x : R) (rest : List R)
      → All Q (before ++ (x ∷ rest))
      → Q x
  All-middle Q [] x rest h = h.0
  All-middle Q (y ∷ before) x rest h = All-middle Q before x rest h.1

pub last_of-append :
    {P : Type 0} (init : List (EmailOutboxRecord P)) (x : EmailOutboxRecord P)
    → last_of (init ++ (x ∷ [])) ≡ some x
unfolding last_of
last_of-append [] x = refl
last_of-append (y ∷ []) x = refl
last_of-append (y ∷ z ∷ init) x = last_of-append (z ∷ init) x

module _ {P : Type 0} (id_lt : String → String → Bool)
    (id_irrefl : (a : String) → id_lt a a ≡ false)
    (id_trans : (a b c : String) → id_lt a b ≡ true → id_lt b c ≡ true → id_lt a c ≡ true)
    (id_total : (a b : String) → a ≢ b → (id_lt a b ≡ true) ⊎ (id_lt b a ≡ true))
    (by_attempts : Bool) where
  abbrev pub behind : EmailOutboxRecord P → EmailOutboxRecord P → Bool
  behind r q = is_behind id_lt by_attempts (cursor_record by_attempts r) q

  abbrev pub IsOrdered : List (EmailOutboxRecord P) → Type 0
  IsOrdered [] = Unit
  IsOrdered (r ∷ rows) = All (λ q. behind r q ≡ true) rows × IsOrdered rows

  behind_irrefl : (r : EmailOutboxRecord P) → behind r r ≡ false
  behind_irrefl r = ground (arith, id_irrefl r.id)

  behind_trans :
      (r q s : EmailOutboxRecord P) → behind r q ≡ true → behind q s ≡ true → behind r s ≡ true
  behind_trans r q s h k = ground (arith, id_trans r.id q.id s.id)

  behind_asym : (r q : EmailOutboxRecord P) → behind r q ≡ true → behind q r ≡ false
  behind_asym r q h = ground (arith, id_trans r.id q.id r.id, id_irrefl r.id)

  behind_total : (r q : EmailOutboxRecord P) → q.id ≢ r.id → behind q r ≡ false → behind r q ≡ true
  behind_total r q differ h = elim (id_total q.id r.id differ) [
    | inl less ↦ ground (arith, less)
    | inr more ↦ ground (arith, more)
  ]

  insert_by-All :
      (Q : EmailOutboxRecord P → Type 0) (r : EmailOutboxRecord P)
      (rows : List (EmailOutboxRecord P))
      → Q r
      → All Q rows
      → All Q (insert_by id_lt by_attempts r rows)
  unfolding insert_by
  insert_by-All Q r [] h hs = (h, tt)
  insert_by-All Q r (q ∷ rows) h hs = elim (Bool-cases (behind q r)) [
    | inl later ↦ rw later (hs.0, insert_by-All Q r rows h hs.1)
    | inr first ↦ rw first (h, hs)
  ]

  insert_by-IsOrdered :
      (r : EmailOutboxRecord P) (rows : List (EmailOutboxRecord P))
      → All (λ q. q.id ≢ r.id) rows
      → IsOrdered rows
      → IsOrdered (insert_by id_lt by_attempts r rows)
  unfolding insert_by
  insert_by-IsOrdered r [] new h = (tt, tt)
  insert_by-IsOrdered r (q ∷ rows) new h = elim (Bool-cases (behind q r)) [
    | inl later ↦ rw later (
      insert_by-All (λ s. behind q s ≡ true) r rows later h.0,
      insert_by-IsOrdered r rows new.1 h.1,
    )
    | inr first ↦
        let next = behind_total r q new.0 first in
        rw first (
          (
            next,
            All-mono (λ s. behind q s ≡ true) (λ s. behind r s ≡ true)
                (λ s k. behind_trans r q s next k) rows h.0,
          ),
          h,
        )
  ]

  order_by-All :
      (Q : EmailOutboxRecord P → Type 0) (rows : List (EmailOutboxRecord P))
      → All Q rows
      → All Q (order_by id_lt by_attempts rows)
  unfolding order_by
  order_by-All Q [] h = tt
  order_by-All Q (r ∷ rows) h = insert_by-All Q r _ h.0 (order_by-All Q rows h.1)

  pub order_by-IsOrdered :
      (rows : List (EmailOutboxRecord P))
      → AreDistinct rows
      → IsOrdered (order_by id_lt by_attempts rows)
  unfolding order_by
  order_by-IsOrdered [] h = tt
  order_by-IsOrdered (r ∷ rows) h =
      insert_by-IsOrdered r _ (order_by-All (λ q. q.id ≢ r.id) rows h.0)
        (order_by-IsOrdered rows h.1)

  pub filter-IsOrdered :
      (p : EmailOutboxRecord P → Bool) (rows : List (EmailOutboxRecord P))
      → IsOrdered rows
      → IsOrdered (filter p rows)
  filter-IsOrdered p [] h = tt
  filter-IsOrdered p (r ∷ rows) h = elim (Bool-cases (p r)) [
    | inl kept ↦
        rw kept (All-filter (λ q. behind r q ≡ true) p rows h.0, filter-IsOrdered p rows h.1)
    | inr left_out ↦ rw left_out (filter-IsOrdered p rows h.1)
  ]

  -- What is behind a row of an ordered list is what follows it.
  pub filter-behind :
      (before : List (EmailOutboxRecord P)) (x : EmailOutboxRecord P)
      (rest : List (EmailOutboxRecord P))
      → IsOrdered (before ++ (x ∷ rest))
      → filter (behind x) (before ++ (x ∷ rest)) ≡ rest
  filter-behind [] x rest h = rw (behind_irrefl x) (filter-every (behind x) rest h.0)
  filter-behind (y ∷ before) x rest h =
      let earlier = behind_asym y x (All-middle (λ q. behind y q ≡ true) before x rest h.0) in
      rw earlier (filter-behind before x rest h.1)
