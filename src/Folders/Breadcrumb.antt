-- ===== src/Folders/Breadcrumb.antt =====
-- `buildFolderBreadcrumb` of core/files/file-manager-breadcrumb.ts. The loop runs on fuel, and is none
-- where the fuel is spent; what it pushes is the list in the order of the pushes.
use Prim.Native.String.{String}
use mathlib.Core.Option.{map as option_map}
use nest_base.Base.{
  ℕ, zero, suc, Bool, Option, none, some, List, [], ◌∷◌, ◌++◌, length, any, str_eq, if◌then◌else◌,
}
use nest_base.Base.Dict.{Dict, get, put}

pub record BreadcrumbInput : Type 0 where
  pub id : String
  pub tenant_id : String
  pub parent_id : Option String
  pub name : String

pub record BreadcrumbSegment : Type 0 where
  pub id : Option String
  pub name : String

-- visited.has(id)
abbrev pub has_id : String → List String → Bool
has_id id visited = any (λ v. str_eq v id) visited

abbrev pub reverse {ℓ} : {A : Type ℓ} → List A → List A
reverse [] = []
reverse (x ∷ xs) = reverse xs ++ (x ∷ [])

-- byId.set(folder.id, folder), folder by folder
unfoldable pub index : List BreadcrumbInput → Dict BreadcrumbInput → Dict BreadcrumbInput
index [] by_id = by_id
index (folder ∷ folders) by_id = index folders (put folder.id folder by_id)

abbrev pub root : BreadcrumbSegment
root = record { id = none; name = "Root" }

abbrev pub segment : BreadcrumbInput → BreadcrumbSegment
segment folder = record { id = some folder.id; name = folder.name }

-- byId.get(cursor.parentId), or where the loop breaks on a folder without parent, none
abbrev pub parent : Dict BreadcrumbInput → Option String → Option BreadcrumbInput
parent by_id none = none
parent by_id (some id) = get id by_id

-- The segments that the loop pushes from here on.
unfoldable pub walk :
    (fuel : ℕ) (by_id : Dict BreadcrumbInput) (visited : List String)
    → Option BreadcrumbInput
    → Option (List BreadcrumbSegment)
walk zero by_id visited cursor = none
walk (suc fuel) by_id visited none = some []
walk (suc fuel) by_id visited (some folder) =
    let pushed =
      option_map (λ rest. segment folder ∷ rest)
        (walk fuel by_id (folder.id ∷ visited) (parent by_id folder.parent_id)) in
    if has_id folder.id visited then some [] else pushed

-- From the active folder on, with as much fuel as the index has entries and one more.
unfoldable pub breadcrumb_of :
    Dict BreadcrumbInput → Option BreadcrumbInput → Option (List BreadcrumbSegment)
unfolding walk
breadcrumb_of by_id none = some (root ∷ [])
breadcrumb_of by_id (some active) =
    option_map (λ tail. root ∷ reverse tail) (walk (suc (length by_id)) by_id [] (some active))

unfoldable pub build_folder_breadcrumb :
    (active_id : Option String) (folders : List BreadcrumbInput) → Option (List BreadcrumbSegment)
unfolding breadcrumb_of index
build_folder_breadcrumb none folders = some (root ∷ [])
build_folder_breadcrumb (some active_id) folders =
    let by_id = index folders [] in breadcrumb_of by_id (get active_id by_id)
