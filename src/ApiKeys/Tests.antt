-- ===== src/ApiKeys/Tests.antt =====
-- Keys with scopes, and the theorems at concrete inputs.
use Prim.Native.String.{String}
use nest_base.Base.{Bool, true, false, none, some, List, [], ◌∷◌, any, All, ◌≡◌, ◌⊎◌, inr, refl}
use nest_base.Base.Dict.{get}
use nest_base.Base.Split.{split}
use nest_base.ApiKeys.Scopes.{validate_api_key_scopes, parse_api_key_scope}
use nest_base.ApiKeys.Restriction.{OneOrMany, AbilityRule, Ability, restrict_ability_by_scopes}
use nest_base.ApiKeys.Narrowed.{
  allows, IsAllowed, HasOneSubject, restrict_ability_by_scopes-IsAllowed,
}

abbrev two_scopes : List String
two_scopes = "files:write" ∷ "read:users" ∷ []

two_scopes_pass : validate_api_key_scopes two_scopes ≡ none
unfolding validate_api_key_scopes
two_scopes_pass = refl

unknown_scope :
    validate_api_key_scopes ("read:users" ∷ "read:all" ∷ [])
    ≡ some "unknown api key scope \"read:all\""
unfolding validate_api_key_scopes
unknown_scope = refl

-- What CASL is documented to answer on rules without conditions and fields.
abbrev plain_can : Ability String → (action subject : String) → Bool
plain_can rules action subject = any (allows action subject) rules

abbrev same_case : String → String
same_case s = s

abbrev grant : (action : String) (subject : OneOrMany) → AbilityRule String
grant action subject = record {
  action = OneOrMany.one action;
  subject = subject;
  conditions = some "own";
  fields = none;
  inverted = false;
}

-- A member manages files and users.
abbrev member : Ability String
member =
    grant "manage" (OneOrMany.one "File")
    ∷ grant "manage" (OneOrMany.one "User")
    ∷ grant "delete" (OneOrMany.one "Folder")
    ∷ []

member_has_one : All (λ r. (r.inverted ≡ true) ⊎ HasOneSubject r) member
member_has_one = (inr ("File", refl), (inr ("User", refl), (inr ("Folder", refl), tt)))

restrict_ability_by_scopes-IsAllowed_example :
    All (IsAllowed two_scopes) (restrict_ability_by_scopes plain_can same_case member two_scopes)
restrict_ability_by_scopes-IsAllowed_example =
    restrict_ability_by_scopes-IsAllowed plain_can (λ rules action subject plain. refl) same_case
      two_scopes member member_has_one

restricted_member :
    restrict_ability_by_scopes plain_can same_case member two_scopes
    ≡ grant "manage" (OneOrMany.one "File") ∷ grant "read" (OneOrMany.one "User") ∷ []
unfolding restrict_ability_by_scopes parse_api_key_scope split get
restricted_member = refl

-- One rule for two subjects is kept whole where a scope manages one of them: the key with
-- `files:write` alone manages users.
array_subjects_kept :
    restrict_ability_by_scopes plain_can same_case
      (grant "manage" (OneOrMany.many ("File" ∷ "User" ∷ [])) ∷ [])
      ("files:write" ∷ [])
    ≡ grant "manage" (OneOrMany.many ("File" ∷ "User" ∷ [])) ∷ []
unfolding restrict_ability_by_scopes parse_api_key_scope split get
array_subjects_kept = refl
