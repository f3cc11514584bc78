-- ===== src/ApiKeys/Narrowed.antt =====
-- What an ability restricted to an API key's scopes can still do.
use Prim.Native.String.{String}
use mathlib.Core.Bool.{false≢true}
use mathlib.Core.Path.{subst}
use nest_base.Base.{
  Bool, true, false, ◌&&◌, ◌||◌, none, some, List, [], ◌∷◌, map, any, All, str_eq, if◌then◌else◌,
  ◌≡◌, ◌⊎◌, refl, sym, ap, ◌∙◌, Bool-cases, inl, inr, eq_iff, arith, All-append,
}
use nest_base.ApiKeys.Scopes.{contains, ParsedApiKeyScope, parse_api_key_scope}
use nest_base.ApiKeys.Restriction.{
  OneOrMany, normalize_list, AbilityRule, some_fields, Ability, built_rule, build_ability,
  plain_rule, scope_rules, scopes_to_ability_rules, kept_rule, read_rule, narrow_subjects,
  narrow_actions, narrow_rules, restrict_ability_by_scopes,
}
use nest_base.ApiKeys.Planned.{scope_rules-All, parse_api_key_scope-subject}

-- The value names this one, or everything.
abbrev pub names : (everything : String) → OneOrMany → String → Bool
names everything (OneOrMany.one x) s = str_eq x s || str_eq x everything
names everything (OneOrMany.many xs) s = contains s xs || contains everything xs

-- One of the scopes stands for this subject, with the action or with `manage`.
abbrev pub Covers : (scopes : List String) (action subject : String) → Type 0
Covers scopes action subject =
    (scope : String) × (p : ParsedApiKeyScope) × (contains scope scopes ≡ true)
    × (parse_api_key_scope scope ≡ some p)
    × (p.subject ≡ subject)
    × ((p.action ≡ action) ⊎ (p.action ≡ "manage"))

-- A scope's rule allows what the scope covers.
allows-Covers :
    (scopes : List String) (action subject scope : String) (p : ParsedApiKeyScope)
    → contains scope scopes ≡ true
    → parse_api_key_scope scope ≡ some p
    → (names "manage" (OneOrMany.one p.action) action
        && names "all" (OneOrMany.one p.subject) subject)
      ≡ true
    → Covers scopes action subject
allows-Covers scopes action subject scope p found parsed h =
    let some_subject = parse_api_key_scope-subject scope p parsed in
    let of_subject : p.subject ≡ subject =
      ground (arith, eq_iff p.subject subject, eq_iff p.subject "all") in
    let of_action : (p.action ≡ action) ⊎ (p.action ≡ "manage") =
      ground (arith, eq_iff p.action action, eq_iff p.action "manage") in
    (scope, p, found, parsed, of_subject, of_action)

module _ {C : Type 0} where
  abbrev pub allows : (action subject : String) → AbilityRule C → Bool
  allows action subject r = names "manage" r.action action && names "all" r.subject subject

  -- A rule that allows, on every object and field of its subjects.
  abbrev pub IsPlain : AbilityRule C → Type 0
  IsPlain r = (r.inverted ≡ false) × (r.conditions ≡ none) × (r.fields ≡ none)

  abbrev pub HasOneSubject : AbilityRule C → Type 0
  HasOneSubject r = (subject : String) × (r.subject ≡ OneOrMany.one subject)

  -- The rule's subject is one that the scopes let it manage, or let it read, which is all it does.
  abbrev pub IsScoped : (scopes : List String) → AbilityRule C → Type 0
  IsScoped scopes r =
      (subject : String) × (r.subject ≡ OneOrMany.one subject)
      × (Covers scopes "manage" subject
          ⊎ (Covers scopes "read" subject × (r.action ≡ OneOrMany.one "read")))

  All-map :
      (P : AbilityRule C → Type 0) (f : AbilityRule C → AbilityRule C) (rs : List (AbilityRule C))
      → All (λ r. P (f r)) rs
      → All P (map f rs)
  All-map P f [] h = tt
  All-map P f (r ∷ rs) h = (h.0, All-map P f rs h.1)

  All-IsPlain :
      (P : AbilityRule C → Type 0) (rs : List (AbilityRule C))
      → All (λ r. IsPlain r × P r) rs
      → All IsPlain rs
  All-IsPlain P [] h = tt
  All-IsPlain P (r ∷ rs) h = (h.0.0, All-IsPlain P rs h.1)

  All-if :
      (P : AbilityRule C → Type 0) (b : Bool) (xs ys : List (AbilityRule C))
      → (b ≡ true → All P xs)
      → (b ≡ false → All P ys)
      → All P (if b then xs else ys)
  All-if P true xs ys hx hy = hx refl
  All-if P false xs ys hx hy = hy refl

  any-All :
      (P : AbilityRule C → Type 0) (q : AbilityRule C → Bool) (rs : List (AbilityRule C))
      → All P rs
      → any q rs ≡ true
      → (r : AbilityRule C) × P r × (q r ≡ true)
  any-All P q [] h e = cc
  any-All P q (r ∷ rs) h e = elim (Bool-cases (q r)) [
    | inl this ↦ (r, h.0, this)
    | inr other ↦ any-All P q rs h.1 (ground arith)
  ]

  IsFrom : (scopes : List String) → AbilityRule C → Type 0
  IsFrom scopes r =
      (scope : String) × (p : ParsedApiKeyScope) × (contains scope scopes ≡ true)
      × (parse_api_key_scope scope ≡ some p)
      × (r ≡ plain_rule p.action p.subject)

  scope_ability-All :
      (scopes : List String) (rules : Ability C)
      → rules ≡ build_ability (scopes_to_ability_rules scopes)
      → All (λ r. IsPlain r × IsFrom scopes r) rules
  unfolding build_ability built_rule scopes_to_ability_rules IsFrom some_fields
  scope_ability-All scopes rules e = rw e (
      All-map (λ r. IsPlain r × IsFrom scopes r) built_rule (scope_rules scopes [])
        (scope_rules-All (λ r. IsPlain (built_rule r) × IsFrom scopes (built_rule r)) scopes []
          (λ scope p found parsed. ((refl, refl, refl), (scope, p, found, parsed, refl)))))

  -- The rule forbids, or it is scoped.
  abbrev pub IsAllowed : (scopes : List String) → AbilityRule C → Type 0
  IsAllowed scopes r = (r.inverted ≡ true) ⊎ IsScoped scopes r

module _ {C : Type 0} (can : Ability C → (action subject : String) → Bool)
    (can_lem : (rules : Ability C) (action subject : String)
      → All IsPlain rules
      → can rules action subject ≡ any (allows action subject) rules)
    (to_lower_case : String → String) where
  can-Covers :
      (scopes : List String) (action subject : String)
      → can (build_ability (scopes_to_ability_rules scopes)) action subject ≡ true
      → Covers scopes action subject
  unfolding IsFrom
  can-Covers scopes action subject h =
      let rules = build_ability (scopes_to_ability_rules scopes) in
      let each = scope_ability-All scopes rules refl in
      let (r, (plain, from), allowed) =
        any-All _ (allows action subject) rules each
          (sym (can_lem rules action subject (All-IsPlain (IsFrom scopes) rules each)) ∙ h) in
      let (scope, p, found, parsed, is) = from in
      allows-Covers scopes action subject scope p found parsed
        (ap (allows action subject) (sym is) ∙ allowed)

  narrow_subjects-IsAllowed :
      (scopes : List String) (raw : AbilityRule C) (action subject : String)
      → raw.subject ≡ OneOrMany.one subject
      → All (IsAllowed scopes) (
          narrow_subjects can to_lower_case
            (build_ability (scopes_to_ability_rules scopes))
            raw
            action
            (subject ∷ []))
  unfolding narrow_subjects kept_rule read_rule
  narrow_subjects-IsAllowed scopes raw action subject is =
      let rules = build_ability (scopes_to_ability_rules scopes) in
      elim (Bool-cases (can rules "manage" subject)) [
        | inl manages ↦
            rw manages (inr (subject, is, inl (can-Covers scopes "manage" subject manages)), tt)
        | inr not_managed ↦
            rw not_managed
              (elim (Bool-cases (
                can rules "read" subject
                && (str_eq (to_lower_case action) "read"
                    || str_eq (to_lower_case action) "manage"))) [
                      | inl reads ↦ rw reads (
                        inr (
                          subject,
                          refl,
                          inr (can-Covers scopes "read" subject (ground (arith, reads)), refl),
                        ),
                        tt,
                      )
                      | inr not_read ↦ rw not_read tt
                    ])
      ]

  narrow_actions-IsAllowed :
      (scopes : List String) (raw : AbilityRule C) (actions : List String) (subject : String)
      → raw.subject ≡ OneOrMany.one subject
      → All (IsAllowed scopes) (
          narrow_actions can to_lower_case
            (build_ability (scopes_to_ability_rules scopes))
            raw
            actions
            (subject ∷ []))
  unfolding narrow_actions
  narrow_actions-IsAllowed scopes raw [] subject is = tt
  narrow_actions-IsAllowed scopes raw (action ∷ actions) subject is =
      All-append (IsAllowed scopes) _ _ (narrow_subjects-IsAllowed scopes raw action subject is)
        (narrow_actions-IsAllowed scopes raw actions subject is)

  narrowed-IsAllowed :
      (scopes : List String) (raw : AbilityRule C)
      → raw.inverted ≡ false
      → (raw.inverted ≡ true) ⊎ HasOneSubject raw
      → All (IsAllowed scopes) (
          narrow_actions can to_lower_case
            (build_ability (scopes_to_ability_rules scopes))
            raw
            (normalize_list raw.action)
            (normalize_list raw.subject))
  unfolding normalize_list
  narrowed-IsAllowed scopes raw grants (inl forbids) = absurd (false≢true (sym grants ∙ forbids))
  narrowed-IsAllowed scopes raw grants (inr (subject, is)) =
      subst
        (λ ss. All (IsAllowed scopes) (
          narrow_actions can to_lower_case (build_ability (scopes_to_ability_rules scopes)) raw
            (normalize_list raw.action) ss))
        (sym (ap normalize_list is))
        (narrow_actions-IsAllowed scopes raw (normalize_list raw.action) subject is)

  narrow_rules-IsAllowed :
      (scopes : List String) (full : Ability C)
      → All (λ r. (r.inverted ≡ true) ⊎ HasOneSubject r) full
      → All
          (IsAllowed scopes)
          (narrow_rules can to_lower_case (build_ability (scopes_to_ability_rules scopes)) full)
  unfolding narrow_rules normalize_list
  narrow_rules-IsAllowed scopes [] h = tt
  narrow_rules-IsAllowed scopes (raw ∷ full) (h, hs) =
      let rest = narrow_rules-IsAllowed scopes full hs in
      All-if (IsAllowed scopes) raw.inverted _ _ (λ forbids. (inl forbids, rest))
        (λ grants. All-append (IsAllowed scopes) _ _ (narrowed-IsAllowed scopes raw grants h) rest)

  -- Where each rule of the full ability that is not inverted has one subject, each rule of the
  -- restricted ability is inverted, or has one subject that a scope of the key manages, or one that
  -- a scope reads and `read` as its action, if CASL's answer on rules without conditions and fields
  -- is whether one of them names the action or `manage`, and the subject or `all`.
  pub restrict_ability_by_scopes-IsAllowed :
      (scopes : List String) (full : Ability C)
      → All (λ r. (r.inverted ≡ true) ⊎ HasOneSubject r) full
      → All (IsAllowed scopes) (restrict_ability_by_scopes can to_lower_case full scopes)
  unfolding restrict_ability_by_scopes build_ability built_rule
  restrict_ability_by_scopes-IsAllowed [] full h = tt
  restrict_ability_by_scopes-IsAllowed (scope ∷ scopes) full h =
      All-map (IsAllowed (scope ∷ scopes)) built_rule _
        (narrow_rules-IsAllowed (scope ∷ scopes) full h)
