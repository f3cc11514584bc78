-- ===== src/Permissions/Served.antt =====
-- What the ability cache answers, call after call.
use Prim.Native.String.{String}
use nest_base.Base.{
  ℕ, ◌+◌, ◌≤◌, ◌<◌, ◌≡◌, Option, none, some, length, arith, Option-cases, inl, inr,
}
use nest_base.Base.Dict.{get, remove}
use nest_base.Permissions.Cache.{
  Cache, CacheEntry, PermissionServiceOptions, cache_key, fresh, touch, served, store_ability,
  look_up, answer, ability_for_cached,
}
use nest_base.Permissions.Eviction.{
  length-remove_present, length-put, evict_if_needed-bounded, get-evict_if_needed,
}

module _ {A : Type 0} where
  pub fresh-from :
      (now : ℕ) (o : Option (CacheEntry A)) (e : CacheEntry A) → fresh now o ≡ some e → o ≡ some e
  unfolding fresh
  fresh-from now none e h = cc
  fresh-from now (some f) e h = ground arith

module _ {A : Type 0} (encode : String → String) (options : PermissionServiceOptions) where
  touch-length :
      (k : String) (e : CacheEntry A) (cache : Cache A)
      → get k cache ≡ some e
      → length (touch k e cache) ≤ length cache
  touch-length k e cache h =
      omega (arith, length-put k e (remove k cache), length-remove_present k e cache h)

  miss-bounded :
      (u t : String) (later : ℕ) (built : Option A) (cache : Cache A)
      → length cache ≤ options.max_entries
      → length (answer encode options u t later built cache none).1 ≤ options.max_entries
  unfolding answer store_ability
  miss-bounded u t later none cache h = h
  miss-bounded u t later (some a) cache h = evict_if_needed-bounded options.max_entries _

  -- Where the cache has at most `maxEntries` entries, it has no more after a call of
  -- `abilityForCached`, whether that is a hit, a miss or a miss whose rules cannot be built.
  pub ability_for_cached-bounded :
      (u t : String) (now later : ℕ) (built : Option A) (cache : Cache A)
      → length cache ≤ options.max_entries
      → length (ability_for_cached encode options u t now later built cache).1 ≤ options.max_entries
  unfolding ability_for_cached look_up served answer
  ability_for_cached-bounded u t now later built cache h =
      elim (Option-cases (fresh now (get (cache_key encode u t) cache))) [
        | inl miss ↦ rw miss (miss-bounded u t later built cache h)
        | inr (e, hit) ↦
            rw hit (
              omega
                (arith, h, touch-length (cache_key encode u t) e cache (fresh-from now _ e hit)))
      ]

  store_ability-get :
      (u t : String) (later : ℕ) (a : A) (cache : Cache A)
      → 1 ≤ options.max_entries
      → length cache ≤ options.max_entries
      → get (cache_key encode u t) (store_ability encode options u t later a cache)
        ≡ some (record { ability = a; expires_at = later + options.ttl_ms })
  unfolding store_ability
  store_ability-get u t later a cache room h =
      get-evict_if_needed options.max_entries (cache_key encode u t) _ cache room h

  -- When an ability has been stored, in whatever cache of at most `maxEntries` entries, the next call
  -- for the user and the tenant answers with it until `ttlMs` have passed, whatever the storage would
  -- answer by then, if `maxEntries` is not zero.
  pub store_ability-ability_for_cached :
      (u t : String) (later : ℕ) (a : A) (cache : Cache A) (now then : ℕ) (built : Option A)
      → 1 ≤ options.max_entries
      → length cache ≤ options.max_entries
      → now < later + options.ttl_ms
      → (ability_for_cached encode options u t now then built
          (store_ability encode options u t later a cache)).0
        ≡ some a
  unfolding ability_for_cached look_up served answer fresh
  store_ability-ability_for_cached u t later a cache now then built room h early =
      rw (store_ability-get u t later a cache room h) (ground arith)
