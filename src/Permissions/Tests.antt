-- ===== src/Permissions/Tests.antt =====
-- Calls of the permission service, and the theorems at concrete inputs.
use Prim.Native.String.{String, [] as empty, ◌∷◌ as char, ◌++◌ as append}
use Prim.Native.Char.{code}
use mathlib.Core.Path.{ap₂}
use text.Mathlib.TextLemmas.{tail-eq_of_cons-eq}
use text.Mathlib.TextEquality.{Char-path}
use nest_base.Base.{
  ℕ, ◌≤◌, Bool, false, any, All, inr, none, some, [], ◌∷◌, length, str_eq, if◌then◌else◌, ◌≡◌, refl,
  arith,
}
use nest_base.Base.Dict.{get, put, remove}
use nest_base.Base.Text.{starts_with}
use nest_base.Base.Split.{split, Lacks, Lacks-append, append-inj}
use nest_base.Base.Decimal.{print, print-Lacks, print-inj}
use nest_base.Permissions.Cache.{
  Cache, CacheEntry, PermissionServiceOptions, cache_key, store_ability, ability_for_cached,
  invalidate_user,
}
use nest_base.Permissions.Served.{ability_for_cached-bounded, store_ability-ability_for_cached}
use nest_base.ApiKeys.Scopes.{parse_api_key_scope}
use nest_base.ApiKeys.Restriction.{OneOrMany, AbilityRule, Ability, restrict_ability_by_scopes}
use nest_base.ApiKeys.Narrowed.{IsAllowed, allows}
use nest_base.Permissions.Scoped.{Holds, Cached, HasSingles, ability_for, ability_for-IsAllowed}
use nest_base.Permissions.Invalidation.{invalidate_user-get}

abbrev plain : String → String
plain s = s

-- Two entries at most
abbrev small : PermissionServiceOptions
small = record { ttl_ms = 60_000; max_entries = 2 }

abbrev until : ℕ → String → CacheEntry String
until n ability = record { ability = ability; expires_at = n }

abbrev two : Cache String
two = ("ann|t1", until 60_100 "reads") ∷ ("bob|t1", until 60_200 "writes") ∷ []

ability_for_cached-bounded_example :
    length (ability_for_cached plain small "eve" "t1" 300 310 (some "none") two).1 ≤ 2
ability_for_cached-bounded_example =
    ability_for_cached-bounded plain small "eve" "t1" 300 310 (some "none") two (omega arith)

oldest_evicted :
    ability_for_cached plain small "eve" "t1" 300 310 (some "none") two
    ≡ (some "none", ("bob|t1", until 60_200 "writes") ∷ ("eve|t1", until 60_310 "none") ∷ [])
unfolding ability_for_cached get put remove
oldest_evicted = refl

two_after : length (invalidate_user plain "ann" two) ≤ 2
unfolding invalidate_user starts_with
two_after = ground arith

-- An invalidation while the storage answers is lost: the ability that was built from the rows before
-- is stored after it, and handed out.
store_ability-ability_for_cached_example :
    (ability_for_cached plain small "ann" "t1" 60_000 60_010
      (some "nothing")
      (store_ability plain small "ann" "t1" 300 "all" (invalidate_user plain "ann" two))).0
    ≡ some "all"
store_ability-ability_for_cached_example =
    store_ability-ability_for_cached plain small "ann" "t1" 300 "all"
      (invalidate_user plain "ann" two) 60_000 60_010 (some "nothing") (omega arith) two_after
      (omega arith)

-- An encoding that keeps texts apart: the codes of the characters, each in front of a full stop.
unfoldable codes : String → String
codes empty = empty
codes (char c s) = char "x" (append (print (code c)) (char "." (codes s)))

Lacks-codes : (s : String) → Lacks 124 (codes s)
unfolding codes
Lacks-codes empty = tt
Lacks-codes (char c s) = (
  ground arith,
  Lacks-append 124 (print (code c)) _ (print-Lacks 124 refl (code c)) (ground arith, Lacks-codes s),
)

codes-inj : (s t : String) → codes s ≡ codes t → s ≡ t
unfolding codes
codes-inj empty empty e = refl
codes-inj empty (char d t) e = cc
codes-inj (char c s) empty e = cc
codes-inj (char c s) (char d t) e =
    let (first, rest) =
      append-inj "." (print (code c)) (print (code d)) (codes s) (codes t)
        (print-Lacks b'.' refl (code c)) (print-Lacks b'.' refl (code d)) (tail-eq_of_cons-eq e) in
    ap₂ (λ x u. char x u) (Char-path c d (print-inj (code c) (code d) first)) (codes-inj s t rest)

abbrev two_keyed : Cache String
two_keyed =
    (cache_key codes "ann" "t1", until 60_100 "reads")
    ∷ (cache_key codes "bob" "t1", until 60_200 "writes")
    ∷ []

invalidate_user-get_example :
    get (cache_key codes "bob" "t1") (invalidate_user codes "ann" two_keyed)
    ≡ (if str_eq "ann" "bob" then none else get (cache_key codes "bob" "t1") two_keyed)
invalidate_user-get_example =
    invalidate_user-get codes codes-inj Lacks-codes "ann" "bob" "t1" two_keyed

abbrev plain_can : Ability String → (action subject : String) → Bool
plain_can rules action subject = any (allows action subject) rules

abbrev rule : (action subject : String) → AbilityRule String
rule action subject = record {
  action = OneOrMany.one action;
  subject = OneOrMany.one subject;
  conditions = none;
  fields = none;
  inverted = false;
}

abbrev manager : Ability String
manager = rule "manage" "File" ∷ rule "manage" "User" ∷ []

abbrev cached_manager : Cache (Ability String)
cached_manager = ("ann|t1", record { ability = manager; expires_at = 60_100 }) ∷ []

ability_for-IsAllowed_example :
    Holds
      (All (IsAllowed ("read:users" ∷ [])))
      (ability_for plain_can plain plain small "ann" "t1"
        ("read:users" ∷ [])
        300
        310
        none
        cached_manager).0
    × Cached HasSingles
        (ability_for plain_can plain plain small "ann" "t1"
          ("read:users" ∷ [])
          300
          310
          none
          cached_manager).1
    × ((ability_for plain_can plain plain small "ann" "t1"
          ("read:users" ∷ [])
          300
          310
          none
          cached_manager).1
        ≡ (ability_for_cached plain small "ann" "t1" 300 310 none cached_manager).1)
ability_for-IsAllowed_example =
    ability_for-IsAllowed plain_can (λ rules action subject are_plain. refl) plain plain small "ann"
      "t1" "read:users" [] 300 310 none cached_manager
      ((inr ("File", refl), (inr ("User", refl), tt)), tt) tt

key_reads_users :
    ability_for plain_can plain plain small "ann" "t1"
      ("read:users" ∷ [])
      300
      310
      none
      cached_manager
    ≡ (some (rule "read" "User" ∷ []), cached_manager)
unfolding ability_for ability_for_cached get put remove restrict_ability_by_scopes
    parse_api_key_scope split
key_reads_users = refl
