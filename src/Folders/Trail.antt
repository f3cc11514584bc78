-- ===== src/Folders/Trail.antt =====
-- The loop of `buildFolderBreadcrumb` ends, and what it has pushed by then.
use Prim.Native.String.{String}
use mathlib.Core.Option.{map as option_map}
use nest_base.Base.{
  ℕ, zero, suc, ◌≤◌, ◌<◌, true, false, Option, none, some, List, [], ◌∷◌, map, length, All, str_eq,
  if◌then◌else◌, ◌≡◌, ◌⊎◌, refl, sym, ap, ◌∙◌, Bool-cases, Option-cases, inl, inr, eq_iff, eq_refl,
  arith,
}
use nest_base.Base.Dict.{Dict, get, put}
use nest_base.Folders.Breadcrumb.{
  BreadcrumbInput, BreadcrumbSegment, breadcrumb_of, has_id, reverse, index, root, segment, parent,
  walk, build_folder_breadcrumb,
}

-- How many of the entries have not been visited.
unvisited : List String → Dict BreadcrumbInput → ℕ
unvisited visited [] = 0
unvisited visited ((id, folder) ∷ by_id) =
    let rest = unvisited visited by_id in if has_id id visited then rest else suc rest

unvisited_grows :
    (id : String) (visited : List String) (by_id : Dict BreadcrumbInput)
    → unvisited (id ∷ visited) by_id ≤ unvisited visited by_id
unfolding unvisited
unvisited_grows id visited [] = omega arith
unvisited_grows id visited ((j, folder) ∷ by_id) = ground (arith, unvisited_grows id visited by_id)

-- A visit to an entry leaves one less.
unvisited_visit :
    (id : String) (visited : List String) (by_id : Dict BreadcrumbInput) (folder : BreadcrumbInput)
    → get id by_id ≡ some folder
    → has_id id visited ≡ false
    → unvisited (id ∷ visited) by_id < unvisited visited by_id
unfolding unvisited get
unvisited_visit id visited [] folder e new = cc
unvisited_visit id visited ((j, f) ∷ by_id) folder e new = elim (Bool-cases (str_eq j id)) [
  | inl same ↦
      rw ((eq_iff j id).0 same)
        (rw (eq_refl id) (rw new (omega (arith, unvisited_grows id visited by_id))))
  | inr other ↦
      let later = unvisited_visit id visited by_id folder (rw other at e) new in
      ground (arith, later, eq_iff j id, eq_iff id j)
]

unvisited_all : (by_id : Dict BreadcrumbInput) → unvisited [] by_id ≡ length by_id
unfolding unvisited
unvisited_all [] = refl
unvisited_all (e ∷ by_id) = ap suc (unvisited_all by_id)

-- Every entry's key is its folder's id.
abbrev IsKeyed : Dict BreadcrumbInput → Type 0
IsKeyed by_id = All (λ e. e.0 ≡ e.1.id) by_id

IsKeyed-put :
    (folder : BreadcrumbInput) (by_id : Dict BreadcrumbInput)
    → IsKeyed by_id
    → IsKeyed (put folder.id folder by_id)
unfolding put
IsKeyed-put folder [] h = (refl, tt)
IsKeyed-put folder ((j, f) ∷ by_id) h = elim (Bool-cases (str_eq j folder.id)) [
  | inl same ↦ rw same (refl, h.1)
  | inr other ↦ rw other (h.0, IsKeyed-put folder by_id h.1)
]

index-IsKeyed :
    (folders : List BreadcrumbInput) (by_id : Dict BreadcrumbInput)
    → IsKeyed by_id
    → IsKeyed (index folders by_id)
unfolding index
index-IsKeyed [] by_id h = h
index-IsKeyed (folder ∷ folders) by_id h =
    index-IsKeyed folders (put folder.id folder by_id) (IsKeyed-put folder by_id h)

id_of : BreadcrumbInput → Option BreadcrumbInput → String
id_of folder none = folder.id
id_of folder (some other) = other.id

get-IsKeyed :
    (id : String) (by_id : Dict BreadcrumbInput) (folder : BreadcrumbInput)
    → IsKeyed by_id
    → get id by_id ≡ some folder
    → id ≡ folder.id
unfolding get id_of
get-IsKeyed id [] folder h e = cc
get-IsKeyed id ((j, f) ∷ by_id) folder h e = elim (Bool-cases (str_eq j id)) [
  | inl same ↦
      let is : some f ≡ some folder = rw same at e in
      sym ((eq_iff j id).0 same) ∙ h.0 ∙ ap (id_of f) is
  | inr other ↦ get-IsKeyed id by_id folder h.1 (rw other at e)
]

module _ (by_id : Dict BreadcrumbInput) where
  -- There is nothing to go on to: no parent, none that is known, or one that was visited.
  abbrev pub Stops : (visited : List String) → BreadcrumbInput → Type 0
  Stops visited folder =
      (parent by_id folder.parent_id ≡ none)
      ⊎ ((next : BreadcrumbInput) × (parent by_id folder.parent_id ≡ some next)
          × (has_id next.id visited ≡ true))

  -- The folders lead from parent to parent, none of them twice, until there is none to go on to.
  abbrev pub Leads : (visited : List String) → BreadcrumbInput → List BreadcrumbInput → Type 0
  Leads visited folder [] = Stops (folder.id ∷ visited) folder
  Leads visited folder (next ∷ trail) =
      (parent by_id folder.parent_id ≡ some next)
      × (has_id next.id (folder.id ∷ visited) ≡ false)
      × Leads (folder.id ∷ visited) next trail

  walk-none : (fuel : ℕ) (visited : List String) → 0 < fuel → walk fuel by_id visited none ≡ some []
  unfolding walk
  walk-none zero visited h = absurd (omega arith)
  walk-none (suc fuel) visited h = refl

  walk-visited :
      (fuel : ℕ) (visited : List String) (folder : BreadcrumbInput)
      → has_id folder.id visited ≡ true
      → 0 < fuel
      → walk fuel by_id visited (some folder) ≡ some []
  unfolding walk
  walk-visited zero visited folder again h = absurd (omega arith)
  walk-visited (suc fuel) visited folder again h = rw again refl

  parent-get :
      (parent_id : Option String) (next : BreadcrumbInput)
      → IsKeyed by_id
      → parent by_id parent_id ≡ some next
      → get next.id by_id ≡ some next
  parent-get none next keyed e = cc
  parent-get (some id) next keyed e =
      ap (λ k. get k by_id) (sym (get-IsKeyed id by_id next keyed e)) ∙ e

  pushed :
      (folder : BreadcrumbInput) {o : Option (List BreadcrumbSegment)}
      {rest : List BreadcrumbSegment}
      → o ≡ some rest
      → option_map (λ r. segment folder ∷ r) o ≡ some (segment folder ∷ rest)
  pushed folder e = ap (option_map (λ r. segment folder ∷ r)) e

  -- With more fuel than there are folders left to visit, the loop ends, and what it has pushed are
  -- the folders of the way up.
  walk-Leads :
      (fuel : ℕ) (visited : List String) (folder : BreadcrumbInput)
      → IsKeyed by_id
      → get folder.id by_id ≡ some folder
      → has_id folder.id visited ≡ false
      → unvisited visited by_id < fuel
      → (trail : List BreadcrumbInput) × Leads visited folder trail
        × (walk fuel by_id visited (some folder) ≡ some (map segment (folder ∷ trail)))
  unfolding walk
  walk-Leads zero visited folder keyed e new enough = absurd (omega arith)
  walk-Leads (suc fuel) visited folder keyed e new enough =
      let fewer = unvisited_visit folder.id visited by_id folder e new in
      elim (Option-cases (parent by_id folder.parent_id)) [
        | inl last ↦
            ([], inl last, rw new (rw last (pushed folder (walk-none fuel _ (omega arith)))))
        | inr (next, found) ↦ elim (Bool-cases (has_id next.id (folder.id ∷ visited))) [
          | inl again ↦ (
            [],
            inr (next, found, again),
            rw new (rw found (pushed folder (walk-visited fuel _ next again (omega arith)))),
          )
          | inr fresh ↦
              let (trail, leads, rest) =
                walk-Leads fuel (folder.id ∷ visited) next keyed
                  (parent-get folder.parent_id next keyed found) fresh (omega arith) in
              (next ∷ trail, (found, fresh, leads), rw new (rw found (pushed folder rest)))
        ]
      ]

-- Where the active folder is known, the loop ends by itself: the breadcrumb is the root, followed
-- by the way down to the active folder, which is its ancestors from parent to parent, none twice,
-- up to one without a parent that is known and not yet visited.
pub build_folder_breadcrumb-trail :
    (active_id : String) (folders : List BreadcrumbInput) (active : BreadcrumbInput)
    → get active_id (index folders []) ≡ some active
    → (trail : List BreadcrumbInput) × Leads (index folders []) [] active trail
      × (build_folder_breadcrumb (some active_id) folders
          ≡ some (root ∷ reverse (map segment (active ∷ trail))))
unfolding build_folder_breadcrumb breadcrumb_of
build_folder_breadcrumb-trail active_id folders active e =
    let by_id = index folders [] in
    let keyed = index-IsKeyed folders [] tt in
    let (trail, leads, walked) =
      walk-Leads by_id (suc (length by_id)) [] active keyed
        (ap (λ k. get k by_id) (sym (get-IsKeyed active_id by_id active keyed e)) ∙ e) refl
        (omega (arith, unvisited_all by_id)) in
    (
      trail,
      leads,
      ap (breadcrumb_of by_id) e ∙ ap (option_map (λ tail. root ∷ reverse tail)) walked,
    )
