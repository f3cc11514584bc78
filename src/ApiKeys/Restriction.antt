-- ===== src/ApiKeys/Restriction.antt =====
-- `buildAbility` of core/permissions/casl-ability.ts, as far as the rules it hands to CASL go, and
-- `scopesToAbilityRules` and `restrictAbilityByScopes`. CASL's answer `can` and `toLowerCase` are
-- parameters; an ability is its list of rules, and a condition is any value.
use Prim.Native.String.{String, ◌++◌ as append}
use nest_base.Base.{
  Bool, false, ◌&&◌, ◌||◌, Option, none, some, List, [], ◌∷◌, ◌++◌, map, str_eq, if◌then◌else◌,
}
use nest_base.ApiKeys.Scopes.{contains, ParsedApiKeyScope, parse_api_key_scope}

-- T | T[]
pub data OneOrMany : Type 0 where
  one : String → OneOrMany
  many : List String → OneOrMany

unfoldable pub normalize_list : OneOrMany → List String
normalize_list (OneOrMany.one s) = s ∷ []
normalize_list (OneOrMany.many ss) = ss

pub record AbilityRule (C : Type 0) : Type 0 where
  pub action : OneOrMany
  pub subject : OneOrMany
  pub conditions : Option C
  pub fields : Option (List String)
  pub inverted : Bool

-- fields && fields.length > 0 ? fields : undefined
unfoldable pub some_fields : Option (List String) → Option (List String)
some_fields none = none
some_fields (some []) = none
some_fields (some (f ∷ fs)) = some (f ∷ fs)

abbrev pub Ability : Type 0 → Type 0
Ability C = List (AbilityRule C)

module _ {C : Type 0} where
  -- The rule as `builder.can` or `builder.cannot` gets it.
  unfoldable pub built_rule : AbilityRule C → AbilityRule C
  unfolding some_fields
  built_rule rule = record rule { fields = some_fields rule.fields }

  unfoldable pub build_ability : List (AbilityRule C) → Ability C
  unfolding built_rule
  build_ability rules = map built_rule rules

  -- { action, subject }
  abbrev pub plain_rule : (action subject : String) → AbilityRule C
  plain_rule action subject = record {
    action = OneOrMany.one action;
    subject = OneOrMany.one subject;
    conditions = none;
    fields = none;
    inverted = false;
  }

  -- One round of the loop over the scopes, given the rules of the rounds to come: with the scope's
  -- key among those seen, and without.
  unfoldable pub add_scope :
      (seen : List String)
      → Option ParsedApiKeyScope
      → (List String → List (AbilityRule C))
      → List (AbilityRule C)
  add_scope seen none rest = rest seen
  add_scope seen (some parsed) rest =
      let key = append parsed.action (append ":" parsed.subject) in
      if contains key seen
      then rest seen
      else plain_rule parsed.action parsed.subject ∷ rest (key ∷ seen)

  unfoldable pub scope_rules : (scopes seen : List String) → List (AbilityRule C)
  unfolding add_scope
  scope_rules [] seen = []
  scope_rules (scope ∷ scopes) seen =
      add_scope seen (parse_api_key_scope scope) (λ seen'. scope_rules scopes seen')

  unfoldable pub scopes_to_ability_rules : List String → List (AbilityRule C)
  unfolding scope_rules
  scopes_to_ability_rules scopes = scope_rules scopes []

  -- The rule as it is, without what an API key's rule does not carry.
  unfoldable pub kept_rule : AbilityRule C → AbilityRule C
  unfolding some_fields
  kept_rule raw = record {
    action = raw.action;
    subject = raw.subject;
    conditions = raw.conditions;
    fields = some_fields raw.fields;
    inverted = false;
  }

  unfoldable pub read_rule : AbilityRule C → (subject : String) → AbilityRule C
  unfolding some_fields
  read_rule raw subject = record {
    action = OneOrMany.one "read";
    subject = OneOrMany.one subject;
    conditions = raw.conditions;
    fields = some_fields raw.fields;
    inverted = false;
  }

module _ {C : Type 0} (can : Ability C → (action subject : String) → Bool)
    (to_lower_case : String → String) where
  abbrev pub action_matches_read : String → Bool
  action_matches_read action =
      let lower = to_lower_case action in str_eq lower "read" || str_eq lower "manage"

  -- The loop over a rule's subjects up to its `break`.
  unfoldable pub narrow_subjects :
      (scope_ability : Ability C) (raw : AbilityRule C) (action : String) (subjects : List String)
      → List (AbilityRule C)
  unfolding kept_rule read_rule
  narrow_subjects scope_ability raw action [] = []
  narrow_subjects scope_ability raw action (subject ∷ subjects) =
      let rest = narrow_subjects scope_ability raw action subjects in
      if can scope_ability "manage" subject
      then kept_rule raw ∷ []
      else if can scope_ability "read" subject && action_matches_read action
      then read_rule raw subject ∷ []
      else rest

  unfoldable pub narrow_actions :
      (scope_ability : Ability C) (raw : AbilityRule C) (actions subjects : List String)
      → List (AbilityRule C)
  unfolding narrow_subjects
  narrow_actions scope_ability raw [] subjects = []
  narrow_actions scope_ability raw (action ∷ actions) subjects =
      narrow_subjects scope_ability raw action subjects
      ++ narrow_actions scope_ability raw actions subjects

  unfoldable pub narrow_rules : (scope_ability full : Ability C) → List (AbilityRule C)
  unfolding narrow_actions normalize_list
  narrow_rules scope_ability [] = []
  narrow_rules scope_ability (raw ∷ rules) =
      let rest = narrow_rules scope_ability rules in
      if raw.inverted
      then raw ∷ rest
      else narrow_actions scope_ability raw (normalize_list raw.action) (normalize_list raw.subject)
        ++ rest

  unfoldable pub restrict_ability_by_scopes : (full : Ability C) (scopes : List String) → Ability C
  unfolding narrow_rules scopes_to_ability_rules build_ability
  restrict_ability_by_scopes full [] = build_ability []
  restrict_ability_by_scopes full (scope ∷ scopes) =
      build_ability (narrow_rules (build_ability (scopes_to_ability_rules (scope ∷ scopes))) full)
