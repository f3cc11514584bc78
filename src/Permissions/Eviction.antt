-- ===== src/Permissions/Eviction.antt =====
-- The size of the ability cache, and which entry its eviction spares.
use nest_base.Base.{
  ℕ, zero, suc, ◌+◌, ◌≤◌, ◌<◌, String, ◌≡◌, ◌≢◌, refl, none, some, List, [], ◌∷◌, length, ltb,
  arith, eq_iff, eq_refl, Bool-cases, str_eq, Option-cases, inl, inr,
}
use nest_base.Base.Dict.{get, put, remove, get-put}
use nest_base.Permissions.Cache.{Cache, CacheEntry, drop_oldest, evict_rounds, evict_if_needed}

module _ {V : Type 0} where
  pub length-remove : (k : String) (m : List (String × V)) → length (remove k m) ≤ length m
  unfolding remove
  length-remove k [] = omega arith
  length-remove k ((j, v) ∷ m) = ground (arith, length-remove k m)

  pub length-remove_present :
      (k : String) (v : V) (m : List (String × V))
      → get k m ≡ some v
      → length (remove k m) + 1 ≤ length m
  unfolding remove get
  length-remove_present k v [] e = cc
  length-remove_present k v ((j, w) ∷ m) e =
      ground (arith, length-remove k m, length-remove_present k v m)

  pub length-put : (k : String) (v : V) (m : List (String × V)) → length (put k v m) ≤ length m + 1
  unfolding put
  length-put k v [] = omega arith
  length-put k v ((j, w) ∷ m) = ground (arith, length-put k v m)

  pub length-put_present :
      (k : String) (v w : V) (m : List (String × V))
      → get k m ≡ some w
      → length (put k v m) ≡ length m
  unfolding put get
  length-put_present k v w [] e = cc
  length-put_present k v w ((j, x) ∷ m) e = ground (arith, length-put_present k v w m)

  -- The last entry, and the only one of its key, is this one.
  abbrev pub IsLast : String → V → List (String × V) → Type 0
  IsLast k v [] = ⊥
  IsLast k v ((j, w) ∷ []) = (j ≡ k) × (w ≡ v)
  IsLast k v ((j, w) ∷ e ∷ m) = (j ≢ k) × IsLast k v (e ∷ m)

  IsLast-get : (k : String) (v : V) (m : List (String × V)) → IsLast k v m → get k m ≡ some v
  unfolding get
  IsLast-get k v [] h = absurd h
  IsLast-get k v ((j, w) ∷ []) h = ground (arith, eq_iff j k)
  IsLast-get k v ((j, w) ∷ e ∷ m) h = ground (arith, eq_iff j k, IsLast-get k v (e ∷ m))

  IsLast-cons :
      (k j : String) (v w : V) (m : List (String × V))
      → j ≢ k
      → IsLast k v m
      → IsLast k v ((j, w) ∷ m)
  IsLast-cons k j v w [] other h = absurd h
  IsLast-cons k j v w (e ∷ m) other h = (other, h)

  IsLast-remove :
      (i k : String) (v : V) (m : List (String × V))
      → i ≢ k
      → IsLast k v m
      → IsLast k v (remove i m)
  unfolding remove
  IsLast-remove i k v [] other h = absurd h
  IsLast-remove i k v ((j, w) ∷ []) other h = ground (arith, eq_iff j i)
  IsLast-remove i k v ((j, w) ∷ e ∷ m) other h = elim (Bool-cases (str_eq j i)) [
    | inl same ↦ rw same (IsLast-remove i k v (e ∷ m) other h.1)
    | inr differ ↦
        rw differ
          (IsLast-cons k j v w (remove i (e ∷ m)) h.0 (IsLast-remove i k v (e ∷ m) other h.1))
  ]

  IsLast-put :
      (k : String) (v : V) (m : List (String × V)) → get k m ≡ none → IsLast k v (put k v m)
  unfolding get put
  IsLast-put k v [] e = (refl, refl)
  IsLast-put k v ((j, w) ∷ m) e = elim (Bool-cases (str_eq j k)) [
    | inl same ↦ ground arith
    | inr differ ↦ rw differ (
        IsLast-cons k j v w (put k v m) (ground (arith, eq_iff j k))
          (IsLast-put k v m (ground arith)))
  ]

module _ {A : Type 0} where
  length-drop_oldest :
      (n : ℕ) (cache : Cache A) → length cache ≤ suc n → length (drop_oldest cache) ≤ n
  length-drop_oldest n [] h = omega arith
  length-drop_oldest n ((k, e) ∷ cache) h =
      omega (arith, length-remove_present k e ((k, e) ∷ cache) (unfold get in rw (eq_refl k) refl))

  -- The loop ends with at most `maxEntries` entries, in no more rounds than there are entries.
  evict_rounds-bounded :
      (n most : ℕ) (cache : Cache A) → length cache ≤ n → length (evict_rounds n most cache) ≤ most
  unfolding evict_rounds
  evict_rounds-bounded zero most cache h = omega arith
  evict_rounds-bounded (suc n) most cache h =
      ground (arith, evict_rounds-bounded n most (drop_oldest cache) (length-drop_oldest n cache h))

  IsLast-drop_oldest :
      (k : String) (e : CacheEntry A) (cache : Cache A)
      → 1 < length cache
      → IsLast k e cache
      → IsLast k e (drop_oldest cache)
  unfolding remove
  IsLast-drop_oldest k e [] many h = absurd h
  IsLast-drop_oldest k e ((j, w) ∷ []) many h = absurd (omega arith)
  IsLast-drop_oldest k e ((j, w) ∷ f ∷ cache) many h =
      rw (eq_refl j) (IsLast-remove j k e (f ∷ cache) h.0 h.1)

  evict_rounds-IsLast :
      (n most : ℕ) (k : String) (e : CacheEntry A) (cache : Cache A)
      → 1 ≤ most
      → IsLast k e cache
      → IsLast k e (evict_rounds n most cache)
  unfolding evict_rounds
  evict_rounds-IsLast zero most k e cache some_room h = h
  evict_rounds-IsLast (suc n) most k e cache some_room h =
      elim (Bool-cases (ltb most (length cache))) [
        | inl over ↦ rw over (
            evict_rounds-IsLast n most k e (drop_oldest cache) some_room
              (IsLast-drop_oldest k e cache (ground arith) h))
        | inr fits ↦ rw fits h
      ]

  evict_rounds_fits :
      (n most : ℕ) (cache : Cache A) → length cache ≤ most → evict_rounds n most cache ≡ cache
  unfolding evict_rounds
  evict_rounds_fits zero most cache h = refl
  evict_rounds_fits (suc n) most cache h = ground arith

  pub evict_if_needed-bounded :
      (most : ℕ) (cache : Cache A) → length (evict_if_needed most cache) ≤ most
  unfolding evict_if_needed
  evict_if_needed-bounded most cache = evict_rounds-bounded (length cache) most cache (omega arith)

  -- What has just been stored is not evicted.
  pub get-evict_if_needed :
      (most : ℕ) (k : String) (e : CacheEntry A) (cache : Cache A)
      → 1 ≤ most
      → length cache ≤ most
      → get k (evict_if_needed most (put k e cache)) ≡ some e
  unfolding evict_if_needed
  get-evict_if_needed most k e cache room h = elim (Option-cases (get k cache)) [
    | inl new ↦ IsLast-get k e (evict_rounds (length (put k e cache)) most (put k e cache)) (
        evict_rounds-IsLast (length (put k e cache)) most k e (put k e cache) room
          (IsLast-put k e cache new))
    | inr (w, old) ↦
        rw
          (evict_rounds_fits (length (put k e cache)) most (put k e cache)
            (omega (arith, length-put_present k e w cache old)))
          (simp (get-put, eq_refl))
  ]
