-- ===== src/Permissions/Invalidation.antt =====
-- Which entries `invalidate` drops, given what is documented of `encodeURIComponent`: it does not
-- send two texts to one, and leaves no `|` in any.
use Prim.Native.String.{String, [] as empty, ◌∷◌ as char, ◌++◌ as append}
use nest_base.Base.{
  Bool, not, ◌≡◌, sym, ap, ◌∙◌, none, [], ◌∷◌, Bool-cases, inl, inr, str_eq, eq_iff, if◌then◌else◌,
  filter, arith,
}
use nest_base.Base.Dict.{Dict, get}
use nest_base.Base.Text.{starts_with}
use nest_base.Base.Split.{Lacks, append-inj, append_assoc, starts_with-append, starts_with-part}
use mathlib.Core.Bool.{false≢true}
use text.Mathlib.TextLemmas.{nil-append, cons-append}
use nest_base.Permissions.Cache.{Cache, cache_key, invalidate_user}

-- The dictionary without the entries whose key fails the test.
get-filter :
    {V : Type 0} (q : String → Bool) (k : String) (m : Dict V)
    → get k (filter (λ e. q e.0) m) ≡ (if q k then get k m else none)
unfolding get
get-filter q k [] = ground arith
get-filter q k ((j, v) ∷ m) = elim (Bool-cases (str_eq j k)) [
  | inl same ↦ let e : q j ≡ q k = ap q ((eq_iff j k).0 same) in ground (arith, get-filter q k m)
  | inr differ ↦ ground (arith, get-filter q k m)
]

module _ (encode : String → String)
    (encode_injective : (s t : String) → encode s ≡ encode t → s ≡ t)
    (encode_bar : (s : String) → Lacks 124 (encode s)) where
  keyed : (u t : String) → cache_key encode u t ≡ append (encode u) (char "|" (encode t))
  keyed u t =
      ap (append (encode u))
        (cons-append "|" empty (encode t) ∙ ap (char "|") (nil-append (encode t)))

  -- Two pairs of a user and a tenant never share a key.
  pub cache_key-inj :
      (u t v w : String) → cache_key encode u t ≡ cache_key encode v w → (u ≡ v) × (t ≡ w)
  cache_key-inj u t v w e =
      let (users, tenants) =
        append-inj "|" (encode u) (encode v) (encode t) (encode w) (encode_bar u) (encode_bar v)
          (sym (keyed u t) ∙ e ∙ keyed v w) in
      (encode_injective u v users, encode_injective t w tenants)

  prefix-same :
      (u v w : String) → starts_with (append (encode u) "|") (cache_key encode v w) ≡ (str_eq u v)
  prefix-same u v w = elim (Bool-cases (str_eq u v)) [
    | inl same ↦ rw same (
        rw ((eq_iff u v).0 same) (
          ap (starts_with (append (encode v) "|")) (sym (append_assoc (encode v) "|" (encode w)))
          ∙ starts_with-append (append (encode v) "|") (encode w)))
    | inr differ ↦
        rw differ (elim (Bool-cases (starts_with (append (encode u) "|") (cache_key encode v w))) [
          | inr apart ↦ apart
          | inl found ↦ absurd (
              false≢true (
                sym differ
                ∙ (eq_iff u v).1 (
                    encode_injective u v (
                      starts_with-part "|" (encode u) (encode v) (encode w) (encode_bar u)
                        (encode_bar v)
                        (sym (ap (starts_with (append (encode u) "|")) (keyed v w)) ∙ found)))))
        ])
  ]

module _ {A : Type 0} (encode : String → String)
    (encode_injective : (s t : String) → encode s ≡ encode t → s ≡ t)
    (encode_bar : (s : String) → Lacks 124 (encode s)) where
  -- After `invalidate(userId)` a lookup finds nothing for that user in any tenant, and finds for every
  -- other user what it would have found before, if `encodeURIComponent` does not send two texts to
  -- one and leaves no `|` in any.
  pub invalidate_user-get :
      (u v w : String) (cache : Cache A)
      → get (cache_key encode v w) (invalidate_user encode u cache)
        ≡ (if str_eq u v then none else get (cache_key encode v w) cache)
  unfolding invalidate_user
  invalidate_user-get u v w cache =
      get-filter (λ k. not (starts_with (append (encode u) "|") k)) (cache_key encode v w) cache
      ∙ rw (prefix-same encode encode_injective encode_bar u v w) (ground arith)
