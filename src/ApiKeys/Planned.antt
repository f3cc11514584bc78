-- ===== src/ApiKeys/Planned.antt =====
-- Which rules the scopes of an API key stand for.
use Prim.Native.String.{String, ◌++◌ as append}
use mathlib.Core.Path.{subst}
use mathlib.Core.Bool.{false≢true}
use mathlib.Core.Option.{map as option_map}
use nest_base.Base.{
  Bool, true, false, not, ◌||◌, Option, none, some, List, [], ◌∷◌, All, find?, is_some, str_eq,
  if◌then◌else◌, ◌≡◌, ◌≢◌, refl, sym, ap, ◌∙◌, Bool-cases, inl, inr, eq_iff, eq_refl, arith,
}
use nest_base.Base.Dict.{get, Values, Values-get}
use nest_base.Base.Split.{split}
use nest_base.ApiKeys.Scopes.{
  contains, api_key_scope_allowlist, resource_to_subject, write_actions, read_actions,
  ParsedApiKeyScope, validate_api_key_scopes, scope_of, parse_parts, parse_api_key_scope,
}
use nest_base.ApiKeys.Restriction.{AbilityRule, plain_rule, add_scope, scope_rules}

-- Every scope of the allow-list names a subject and an action.
allowlist-parse : All (λ s. is_some (parse_api_key_scope s) ≡ true) api_key_scope_allowlist
unfolding parse_api_key_scope split get
allowlist-parse = search

All-contains :
    (P : String → Type 0) (s : String) (xs : List String) → All P xs → contains s xs ≡ true → P s
All-contains P s [] h e = cc
All-contains P s (x ∷ xs) h e = elim (Bool-cases (str_eq x s)) [
  | inl same ↦ subst P ((eq_iff x s).0 same) h.0
  | inr other ↦ All-contains P s xs h.1 (ground arith)
]

find?-none :
    (P : String → Type 0) (q : String → Bool)
    → ((s : String) → q s ≡ true → P s)
    → (xs : List String) → find? (λ s. not (q s)) xs ≡ none
    → All P xs
find?-none P q holds [] e = tt
find?-none P q holds (x ∷ xs) e = elim (Bool-cases (q x)) [
  | inl passes ↦ (holds x passes, find?-none P q holds xs (ground arith))
  | inr fails ↦ ground arith
]

map-none : {A B : Type 0} (f : A → B) (o : Option A) → option_map f o ≡ none → o ≡ none
map-none f none e = refl
map-none f (some a) e = cc

-- Scopes that `validateApiKeyScopes` accepts all come to a rule: `parseApiKeyScope` drops none.
validate_api_key_scopes-parse :
    (scopes : List String)
    → validate_api_key_scopes scopes ≡ none
    → All (λ s. is_some (parse_api_key_scope s) ≡ true) scopes
unfolding validate_api_key_scopes
validate_api_key_scopes-parse [] e = cc
validate_api_key_scopes-parse (scope ∷ scopes) e =
    find?-none (λ s. is_some (parse_api_key_scope s) ≡ true)
      (λ s. contains s api_key_scope_allowlist)
      (λ s listed.
        All-contains (λ t. is_some (parse_api_key_scope t) ≡ true) s api_key_scope_allowlist
          allowlist-parse listed)
      (scope ∷ scopes) (map-none _ _ e)

scope_of-resource :
    (verb : String) (o : Option String) (p : ParsedApiKeyScope)
    → scope_of verb o ≡ some p
    → o ≡ some p.subject
unfolding scope_of
scope_of-resource verb none p e = cc
scope_of-resource verb (some s) p e =
    let is : p ≡ record {
      action = if contains verb write_actions then "manage" else "read";
      subject = s;
    } =
      cc in
    ap some (sym (ap (λ q. q.subject) is))

resources : Values (λ s. str_eq s "all" ≡ false) resource_to_subject
resources = search

-- No resource is CASL's `all`.
scope_of-subject :
    (verb resource : String) (p : ParsedApiKeyScope)
    → scope_of verb (get resource resource_to_subject) ≡ some p
    → p.subject ≢ "all"
scope_of-subject verb resource p e all = false≢true (
    sym (
      Values-get (λ s. str_eq s "all" ≡ false) resource p.subject resource_to_subject resources
        (scope_of-resource verb _ p e))
    ∙ (eq_iff p.subject "all").1 all)

parse_parts-subject :
    (parts : List String) (p : ParsedApiKeyScope) → parse_parts parts ≡ some p → p.subject ≢ "all"
unfolding parse_parts
parse_parts-subject [] p e = cc
parse_parts-subject (left ∷ []) p e = cc
parse_parts-subject (left ∷ right ∷ []) p e =
    elim (Bool-cases (contains left read_actions || contains left write_actions)) [
      | inl verb ↦ scope_of-subject left right p (rw verb at e)
      | inr noun ↦ elim (Bool-cases (contains right read_actions || contains right write_actions)) [
        | inl verb ↦ scope_of-subject right left p (rw noun at (rw verb at e))
        | inr neither ↦ let gone : none ≡ some p = rw noun at (rw neither at e) in cc
      ]
    ]
parse_parts-subject (left ∷ right ∷ x ∷ parts) p e = cc

pub parse_api_key_scope-subject :
    (scope : String) (p : ParsedApiKeyScope)
    → parse_api_key_scope scope ≡ some p
    → p.subject ≢ "all"
unfolding parse_api_key_scope
parse_api_key_scope-subject scope p e = parse_parts-subject (split ":" scope) p e

module _ {C : Type 0} where
  add_scope-All :
      (P : AbilityRule C → Type 0) (seen : List String) (o : Option ParsedApiKeyScope)
      (rest : List String → List (AbilityRule C))
      → ((p : ParsedApiKeyScope) → o ≡ some p → P (plain_rule p.action p.subject))
      → ((seen' : List String) → All P (rest seen'))
      → All P (add_scope seen o rest)
  unfolding add_scope
  add_scope-All P seen none rest this later = later seen
  add_scope-All P seen (some p) rest this later =
      let key = append p.action (append ":" p.subject) in
      elim (Bool-cases (contains key seen)) [
        | inl known ↦ rw known (later seen)
        | inr new ↦ rw new (this p refl, later (key ∷ seen))
      ]

  -- What holds of each scope's rule holds of each rule.
  pub scope_rules-All :
      (P : AbilityRule C → Type 0) (scopes seen : List String)
      → ((scope : String) (p : ParsedApiKeyScope)
          → contains scope scopes ≡ true
          → parse_api_key_scope scope ≡ some p
          → P (plain_rule p.action p.subject))
      → All P (scope_rules scopes seen)
  unfolding scope_rules
  scope_rules-All P [] seen each = tt
  scope_rules-All P (scope ∷ scopes) seen each =
      add_scope-All P seen (parse_api_key_scope scope) _
        (λ p e. each scope p (ground (arith, eq_refl scope)) e)
        (λ seen'. scope_rules-All P scopes seen' (λ t p found e. each t p (ground arith) e))
