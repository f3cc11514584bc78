-- ===== src/Throttler/BucketKey.antt =====
-- core/throttler/bucket-key.ts. `toUpperCase` of the runtime is a parameter.
use Prim.Native.Char.{Char, code}
use Prim.Native.String.{String, [], ◌∷◌, ◌++◌}
use text.Mathlib.TextLemmas.{cons-append}
use nest_base.Base.{Option, none, some, ◌≡◌, refl, sym, ap, ◌∙◌, str_eq, ◌==◌, if◌then◌else◌}

pub record ThrottleBucketSubject : Type 0 where
  pub method : String
  pub path : String
  pub api_key_id : Option String
  pub user_id : Option String
  pub ip : Option String

pub data Tier : Type 0 where
  api_key user address : Tier

-- Who is counted: the tier, and the id in it. An empty text counts as no id.
unfoldable pub present : Option String → Option String
present none = none
present (some s) = if str_eq s "" then none else some s

unfoldable pub pick : (api_key_id user_id ip : Option String) → Option (Tier × String)
pick (some key) user_id ip = some (api_key, key)
pick none (some id) ip = some (user, id)
pick none none (some ip) = some (address, ip)
pick none none none = none

-- `pickIdentity`; `none` is the error that there is no id.
unfoldable pub identity_of : ThrottleBucketSubject → Option (Tier × String)
unfolding pick present
identity_of subject =
    pick (present subject.api_key_id) (present subject.user_id) (present subject.ip)

abbrev pub tier_prefix : Tier → String
tier_prefix api_key = "apiKey:"
tier_prefix user = "user:"
tier_prefix address = "ip:"

abbrev pub tier_in : Option (Tier × String) → Option Tier
tier_in none = none
tier_in (some (tier, id)) = some tier

first_letter : Tier → Char
first_letter api_key = "a"
first_letter user = "u"
first_letter address = "i"

-- The tier that a key's first letter tells.
read_tier : Option Char → Option Tier
read_tier none = none
read_tier (some c) =
    if code c == b'a' then some api_key else if code c == b'u' then some user else some address

read-first_letter : (tier : Tier) → read_tier (some (first_letter tier)) ≡ some tier
unfolding read_tier first_letter
read-first_letter api_key = refl
read-first_letter user = refl
read-first_letter address = refl

abbrev first : String → Option Char
first [] = none
first (c ∷ s) = some c

abbrev first_of : Option String → Option Char
first_of none = none
first_of (some s) = first s

first-append : (c : Char) (p s t : String) → first (((c ∷ p) ++ s) ++ t) ≡ some c
first-append c p s t =
    ap (λ x. first (x ++ t)) (cons-append c p s) ∙ ap first (cons-append c (p ++ s) t)

module _ (to_upper_case : String → String) where
  -- `${identity}:${method}:${subject.path}`
  unfoldable pub key_of : ThrottleBucketSubject → Tier × String → String
  key_of subject (tier, id) =
      (tier_prefix tier ++ id) ++ (":" ++ (to_upper_case subject.method ++ (":" ++ subject.path)))

  unfoldable pub build_from : ThrottleBucketSubject → Option (Tier × String) → Option String
  unfolding key_of
  build_from subject none = none
  build_from subject (some identity) = some (key_of subject identity)

  unfoldable pub build_throttle_bucket_key : ThrottleBucketSubject → Option String
  unfolding build_from identity_of
  build_throttle_bucket_key subject = build_from subject (identity_of subject)

  first-key_of :
      (subject : ThrottleBucketSubject) (i : Tier × String)
      → first (key_of subject i) ≡ some (first_letter i.0)
  unfolding key_of first_letter
  first-key_of subject (api_key, id) = first-append "a" "piKey:" id _
  first-key_of subject (user, id) = first-append "u" "ser:" id _
  first-key_of subject (address, id) = first-append "i" "p:" id _

  read-build_from :
      (subject : ThrottleBucketSubject) (o : Option (Tier × String)) (key : String)
      → build_from subject o ≡ some key
      → tier_in o ≡ read_tier (first key)
  unfolding build_from
  read-build_from subject none key e = cc
  read-build_from subject (some i) key e =
      sym (read-first_letter i.0)
      ∙ sym (ap read_tier (first-key_of subject i))
      ∙ ap read_tier (ap first_of e)

  -- Two requests share a bucket only if the same kind of caller is counted: an API key, a user or an
  -- address. No choice of ids, methods and paths makes a key of one kind a key of another.
  pub build_throttle_bucket_key-tier :
      (subject other : ThrottleBucketSubject) (key : String)
      → build_throttle_bucket_key subject ≡ some key
      → build_throttle_bucket_key other ≡ some key
      → tier_in (identity_of subject) ≡ tier_in (identity_of other)
  unfolding build_throttle_bucket_key
  build_throttle_bucket_key-tier subject other key e f =
      read-build_from subject (identity_of subject) key e
      ∙ sym (read-build_from other (identity_of other) key f)
