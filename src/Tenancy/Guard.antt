-- ===== src/Tenancy/Guard.antt =====
-- core/multi-tenancy/tenant-guard.ts. The environment variable for the mount path of the login routes
-- is an argument.
use Prim.Native.Char.{Char, code}
use Prim.Native.String.{String, [], ◌∷◌, ◌++◌}
use text.Mathlib.TextLemmas.{nil-append, cons-append}
use nest_base.Base.{
  Bool, true, not, ◌||◌, Option, none, some, any, str_eq, ◌==◌, if◌then◌else◌, ◌≡◌, ◌≢◌, refl, sym,
  ap, ◌∙◌, arith,
}
use nest_base.Tenancy.Paths.{exempt_exact, static_exempt_prefixes, better_auth_default_mount_path}
use nest_base.Base.Text.{starts_with, ends_with_slash, drop_last}

-- path.slice(0, cut), where cut is the first `?` or `#`
unfoldable pub pure_path : String → String
pure_path [] = []
pure_path (c ∷ s) = if code c == b'?' || code c == b'#' then [] else c ∷ pure_path s

-- `resolveAuthExemptPrefix`
unfoldable pub resolve_auth_exempt_prefix : (base_path : Option String) → String
resolve_auth_exempt_prefix base_path =
    let raw : String = elim base_path [
      | none ↦ better_auth_default_mount_path
      | some path ↦ path
    ] in
    if ends_with_slash raw then raw else raw ++ "/"

-- pure.startsWith(prefix) || pure === prefix.slice(0, -1)
abbrev pub matches_prefix : (pure : String) (prefix : String) → Bool
matches_prefix pure prefix = starts_with prefix pure || str_eq pure (drop_last prefix)

unfoldable pub is_exempt_path : (base_path : Option String) (pure : String) → Bool
unfolding resolve_auth_exempt_prefix
is_exempt_path base_path pure =
    any (λ exact. str_eq exact pure) exempt_exact
    || matches_prefix pure (resolve_auth_exempt_prefix base_path)
    || any (matches_prefix pure) static_exempt_prefixes

-- `none` is the error that there is no path.
unfoldable pub is_tenant_exempt : (base_path : Option String) (path : String) → Option Bool
unfolding pure_path is_exempt_path
is_tenant_exempt base_path [] = none
is_tenant_exempt base_path (c ∷ s) = some (is_exempt_path base_path (pure_path (c ∷ s)))

unfoldable pub requires_tenant : (base_path : Option String) (path : String) → Option Bool
unfolding is_tenant_exempt
requires_tenant base_path path = elim (is_tenant_exempt base_path path) [
  | none ↦ none
  | some exempt ↦ some (not exempt)
]

-- A path without query and fragment.
abbrev pub IsPure : String → Type 0
IsPure [] = Unit
IsPure (c ∷ s) = (code c ≢ b'?') × (code c ≢ b'#') × IsPure s

pure_path-append :
    (p rest : String) (mark : Char)
    → (code mark == b'?' || code mark == b'#') ≡ true
    → IsPure p
    → pure_path (p ++ (mark ∷ rest)) ≡ p
unfolding pure_path
pure_path-append [] rest mark m h = ap pure_path (nil-append (mark ∷ rest)) ∙ rw m refl
pure_path-append (c ∷ p) rest mark m h =
    ap pure_path (cons-append c p (mark ∷ rest))
    ∙ ground (arith, pure_path-append p rest mark m h.2)

pure_path-IsPure : (p : String) → IsPure p → pure_path p ≡ p
unfolding pure_path
pure_path-IsPure [] h = refl
pure_path-IsPure (c ∷ p) h = ground (arith, pure_path-IsPure p h.2)

-- A query or a fragment never changes whether a request needs a tenant: it is decided by the path
-- before them.
pub requires_tenant-append :
    (base_path : Option String) (p rest : String) (mark : Char)
    → p ≢ ""
    → IsPure p
    → (code mark == b'?' || code mark == b'#') ≡ true
    → requires_tenant base_path (p ++ (mark ∷ rest)) ≡ requires_tenant base_path p
unfolding requires_tenant is_tenant_exempt
requires_tenant-append base_path [] rest mark named h m = absurd (named refl)
requires_tenant-append base_path (c ∷ p) rest mark named h m =
    ap (requires_tenant base_path) (cons-append c p (mark ∷ rest))
    ∙ ap (λ pure. some (not (is_exempt_path base_path pure)))
        (ap pure_path (sym (cons-append c p (mark ∷ rest)))
          ∙ pure_path-append (c ∷ p) rest mark m h
          ∙ sym (pure_path-IsPure (c ∷ p) h))
