-- ===== src/Permissions/Cache.antt =====
-- `PermissionService` of core/permissions/permission.service.ts: abilities in a `Map` that keeps the
-- order of insertion. The ability is any type: what CASL makes of the rules is a parameter, and so
-- is `encodeURIComponent`. The storage answers with rows that the caller of the model gives.
use Prim.Native.String
use nest_base.Base.{
  ℕ, zero, suc, ◌+◌, String, not, Option, none, some, [], ◌∷◌, ltb, filter, length, if◌then◌else◌,
}
use nest_base.Base.Dict.{Dict, get, put, remove}
use nest_base.Base.Text.{starts_with}

pub record CacheEntry (A : Type 0) : Type 0 where
  pub ability : A
  pub expires_at : ℕ

abbrev pub Cache : Type 0 → Type 0
Cache A = Dict (CacheEntry A)

abbrev pub default_ttl_ms : ℕ
default_ttl_ms = 60_000

abbrev pub default_max_entries : ℕ
default_max_entries = 1000

pub record PermissionServiceOptions : Type 0 where
  pub ttl_ms : ℕ
  pub max_entries : ℕ

-- `${encodeURIComponent(userId)}|${encodeURIComponent(tenantId)}`
abbrev pub cache_key : (encode : String → String) (user_id tenant_id : String) → String
cache_key encode user_id tenant_id =
    String.◌++◌ (encode user_id) (String.◌++◌ "|" (encode tenant_id))

module _ {A : Type 0} where
  -- One round of the eviction loop: the first key of the map is deleted.
  abbrev pub drop_oldest : Cache A → Cache A
  drop_oldest [] = []
  drop_oldest ((key, entry) ∷ cache) = remove key ((key, entry) ∷ cache)

  -- The loop, with as many rounds as there are entries at most.
  unfoldable pub evict_rounds : (rounds max_entries : ℕ) → Cache A → Cache A
  evict_rounds zero max_entries cache = cache
  evict_rounds (suc rounds) max_entries cache =
      let rest = evict_rounds rounds max_entries (drop_oldest cache) in
      if ltb max_entries (length cache) then rest else cache

  unfoldable pub evict_if_needed : (max_entries : ℕ) → Cache A → Cache A
  unfolding evict_rounds
  evict_if_needed max_entries cache = evict_rounds (length cache) max_entries cache

  -- cached && cached.expiresAt > Date.now()
  unfoldable pub fresh : (now : ℕ) → Option (CacheEntry A) → Option (CacheEntry A)
  fresh now none = none
  fresh now (some entry) = if ltb now entry.expires_at then some entry else none

  -- LRU touch: the entry moves to the end.
  abbrev pub touch : String → CacheEntry A → Cache A → Cache A
  touch key entry cache = put key entry (remove key cache)

  -- The entry that was found is touched, and its ability handed out.
  unfoldable pub served : String → Cache A → Option (CacheEntry A) → Option (A × Cache A)
  served key cache none = none
  served key cache (some entry) = some (entry.ability, touch key entry cache)

  module _ (encode : String → String) (options : PermissionServiceOptions) where
    -- What follows `findRulesForUser`: the ability is stored, with the clock that is read then.
    unfoldable pub store_ability : (user_id tenant_id : String) (now : ℕ) → A → Cache A → Cache A
    unfolding evict_if_needed
    store_ability user_id tenant_id now ability cache = evict_if_needed options.max_entries (
        put (cache_key encode user_id tenant_id)
          (record { ability = ability; expires_at = now + options.ttl_ms }) cache)

    -- A hit: the ability, and the cache with the entry touched.
    unfoldable pub look_up : (user_id tenant_id : String) (now : ℕ) → Cache A → Option (A × Cache A)
    unfolding fresh served
    look_up user_id tenant_id now cache =
        let key = cache_key encode user_id tenant_id in served key cache (fresh now (get key cache))

    -- The rest of the method, given what the lookup found.
    unfoldable pub answer :
        (user_id tenant_id : String) (later : ℕ) (built : Option A)
        → Cache A
        → Option (A × Cache A)
        → Option A × Cache A
    unfolding store_ability
    answer user_id tenant_id later built cache (some (ability, touched)) = (some ability, touched)
    answer user_id tenant_id later none cache none = (none, cache)
    answer user_id tenant_id later (some ability) cache none =
        (some ability, store_ability user_id tenant_id later ability cache)

    -- `abilityForCached`, where nothing else runs while the storage answers: `built` is what the
    -- rows and the rules come to, or none if that throws.
    unfoldable pub ability_for_cached :
        (user_id tenant_id : String) (now later : ℕ) (built : Option A)
        → Cache A
        → Option A × Cache A
    unfolding look_up answer
    ability_for_cached user_id tenant_id now later built cache =
        answer user_id tenant_id later built cache (look_up user_id tenant_id now cache)

  module _ (encode : String → String) where
    -- invalidate(userId, tenantId)
    unfoldable pub invalidate_entry : (user_id tenant_id : String) → Cache A → Cache A
    invalidate_entry user_id tenant_id cache = remove (cache_key encode user_id tenant_id) cache

    -- invalidate(userId)
    unfoldable pub invalidate_user : (user_id : String) → Cache A → Cache A
    invalidate_user user_id cache =
        filter (λ e. not (starts_with (String.◌++◌ (encode user_id) "|") e.0)) cache

  unfoldable pub invalidate_all : Cache A → Cache A
  invalidate_all cache = []

  abbrev pub cache_size : Cache A → ℕ
  cache_size cache = length cache
