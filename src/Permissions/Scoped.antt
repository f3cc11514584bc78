-- ===== src/Permissions/Scoped.antt =====
-- `PermissionService.abilityFor`: the cached ability, restricted to the scopes of an API key.
use Prim.Native.String.{String}
use mathlib.Core.Option.{map as option_map}
use nest_base.Base.{
  ℕ, zero, suc, Bool, true, ◌≡◌, refl, ◌⊎◌, Option, none, some, List, [], ◌∷◌, any, All, length,
  ltb, Bool-cases, Option-cases, inl, inr,
}
use nest_base.Base.Dict.{Values, Values-put, Values-remove, Values-get, get, remove}
use nest_base.ApiKeys.Restriction.{Ability, restrict_ability_by_scopes}
use nest_base.ApiKeys.Narrowed.{
  IsPlain, HasOneSubject, IsAllowed, allows, restrict_ability_by_scopes-IsAllowed,
}
use nest_base.Permissions.Cache.{
  Cache, PermissionServiceOptions, cache_key, drop_oldest, evict_rounds, evict_if_needed, fresh,
  served, store_ability, look_up, answer, ability_for_cached,
}
use nest_base.Permissions.Served.{fresh-from}

module _ {C : Type 0} (can : Ability C → (action subject : String) → Bool)
    (to_lower_case : String → String) where
  unfoldable pub scoped : (scopes : List String) → Ability C → Ability C
  scoped [] full = full
  scoped (scope ∷ scopes) full = restrict_ability_by_scopes can to_lower_case full (scope ∷ scopes)

  unfoldable pub ability_for :
      (encode : String → String) (options : PermissionServiceOptions) (user_id tenant_id : String)
      (scopes : List String) (now later : ℕ) (built : Option (Ability C))
      → Cache (Ability C)
      → Option (Ability C) × Cache (Ability C)
  unfolding scoped
  ability_for encode options user_id tenant_id scopes now later built cache =
      let (full, after) =
        ability_for_cached encode options user_id tenant_id now later built cache in
      (option_map (scoped scopes) full, after)

-- The value, where there is one, has the property.
abbrev pub Holds {ℓ} : {A : Type 0} → (A → Type ℓ) → Option A → Type ℓ
Holds P none = Unit
Holds P (some a) = P a

module _ {A : Type 0} (P : A → Type 0) where
  -- Every ability of the cache has the property.
  abbrev pub Cached : Cache A → Type 0
  Cached cache = Values (λ e. P e.ability) cache

  drop_oldest-Cached : (cache : Cache A) → Cached cache → Cached (drop_oldest cache)
  drop_oldest-Cached [] h = tt
  drop_oldest-Cached ((key, e) ∷ cache) h =
      Values-remove (λ e. P e.ability) key ((key, e) ∷ cache) h

  evict_rounds-Cached :
      (n most : ℕ) (cache : Cache A) → Cached cache → Cached (evict_rounds n most cache)
  unfolding evict_rounds
  evict_rounds-Cached zero most cache h = h
  evict_rounds-Cached (suc n) most cache h = elim (Bool-cases (ltb most (length cache))) [
    | inl over ↦
        rw over (evict_rounds-Cached n most (drop_oldest cache) (drop_oldest-Cached cache h))
    | inr fits ↦ rw fits h
  ]

  module _ (encode : String → String) (options : PermissionServiceOptions) where
    answer-Cached :
        (u t : String) (later : ℕ) (built : Option A) (cache : Cache A) (hit : Option (A × Cache A))
        → Cached cache
        → Holds P built
        → Holds (λ h. P h.0 × Cached h.1) hit
        → Holds P (answer encode options u t later built cache hit).0
          × Cached (answer encode options u t later built cache hit).1
    unfolding answer store_ability evict_if_needed
    answer-Cached u t later built cache (some (a, touched)) h hb hit = hit
    answer-Cached u t later none cache none h hb hit = (tt, h)
    answer-Cached u t later (some a) cache none h hb hit = (
      hb,
      evict_rounds-Cached _ options.max_entries _ (Values-put (λ e. P e.ability) _ _ cache hb h),
    )

    look_up-Cached :
        (u t : String) (now : ℕ) (cache : Cache A)
        → Cached cache
        → Holds (λ h. P h.0 × Cached h.1) (look_up encode options u t now cache)
    unfolding look_up served
    look_up-Cached u t now cache h =
        let key = cache_key encode u t in
        elim (Option-cases (fresh now (get key cache))) [
          | inl miss ↦ rw miss tt
          | inr (e, found) ↦ rw found (
              let kept = Values-get (λ x. P x.ability) key e cache h (fresh-from now _ e found) in
              (
                kept,
                Values-put (λ x. P x.ability) key e (remove key cache) kept
                    (Values-remove (λ x. P x.ability) key cache h),
              ))
        ]

    ability_for_cached-Cached :
        (u t : String) (now later : ℕ) (built : Option A) (cache : Cache A)
        → Cached cache
        → Holds P built
        → Holds P (ability_for_cached encode options u t now later built cache).0
          × Cached (ability_for_cached encode options u t now later built cache).1
    unfolding ability_for_cached
    ability_for_cached-Cached u t now later built cache h hb =
        answer-Cached u t later built cache (look_up encode options u t now cache) h hb
          (look_up-Cached u t now cache h)

-- Each rule that is not inverted has one subject.
abbrev pub HasSingles : {C : Type 0} → Ability C → Type 0
HasSingles full = All (λ r. (r.inverted ≡ true) ⊎ HasOneSubject r) full

module _ {C : Type 0} (can : Ability C → (action subject : String) → Bool)
    (can_lem : (rules : Ability C) (action subject : String)
      → All IsPlain rules
      → can rules action subject ≡ any (allows action subject) rules)
    (to_lower_case : String → String) where
  scoped-IsAllowed :
      (scope : String) (scopes : List String) (full : Option (Ability C))
      → Holds HasSingles full
      → Holds
          (All (IsAllowed (scope ∷ scopes)))
          (option_map (scoped can to_lower_case (scope ∷ scopes)) full)
  unfolding scoped
  scoped-IsAllowed scope scopes none h = tt
  scoped-IsAllowed scope scopes (some full) h =
      restrict_ability_by_scopes-IsAllowed can can_lem to_lower_case (scope ∷ scopes) full h

  -- Where the rules of every cached ability, and of the one that the storage's rows come to, have one
  -- subject each unless they are inverted, the ability that a key with at least one scope gets, from
  -- the cache or built anew, has inverted rules and rules within the key's scopes alone; and the
  -- cache still holds such abilities, and is the one that a call without scopes leaves. CASL's answer
  -- on rules without conditions and fields is taken to be whether one of them names the action or
  -- `manage`, and the subject or `all`.
  pub ability_for-IsAllowed :
      (encode : String → String) (options : PermissionServiceOptions) (u t : String)
      (scope : String) (scopes : List String) (now later : ℕ) (built : Option (Ability C))
      (cache : Cache (Ability C))
      → Cached HasSingles cache
      → Holds HasSingles built
      → Holds
          (All (IsAllowed (scope ∷ scopes)))
          (ability_for can to_lower_case encode options u t
            (scope ∷ scopes)
            now
            later
            built
            cache).0
        × Cached HasSingles
            (ability_for can to_lower_case encode options u t
              (scope ∷ scopes)
              now
              later
              built
              cache).1
        × ((ability_for can to_lower_case encode options u t
              (scope ∷ scopes)
              now
              later
              built
              cache).1
            ≡ (ability_for_cached encode options u t now later built cache).1)
  unfolding ability_for
  ability_for-IsAllowed encode options u t scope scopes now later built cache h hb =
      let (full, after) =
        ability_for_cached-Cached HasSingles encode options u t now later built cache h hb in
      (scoped-IsAllowed scope scopes _ full, after, refl)
