-- ===== src/Folders/Tests.antt =====
-- Breadcrumbs of three folders, also where the parents form a circle.
use Prim.Native.String.{String}
use nest_base.Base.{Option, none, some, List, [], ◌∷◌, map, ◌≡◌, refl}
use nest_base.Base.Dict.{get, put}
use nest_base.Folders.Breadcrumb.{
  BreadcrumbInput, reverse, index, root, segment, build_folder_breadcrumb,
}
use nest_base.Folders.Trail.{Leads, build_folder_breadcrumb-trail}

abbrev folder : (id : String) → Option String → BreadcrumbInput
folder id parent_id = record { id = id; tenant_id = "t"; parent_id = parent_id; name = id }

abbrev three : List BreadcrumbInput
three = folder "a" none ∷ folder "b" (some "a") ∷ folder "c" (some "b") ∷ []

abbrev circle : List BreadcrumbInput
circle = folder "a" (some "c") ∷ folder "b" (some "a") ∷ folder "c" (some "b") ∷ []

way_down : build_folder_breadcrumb (some "c") three ≡ some (root ∷ map segment three)
unfolding build_folder_breadcrumb get put
way_down = refl

found_in_circle : get "b" (index circle []) ≡ some (folder "b" (some "a"))
unfolding index get put
found_in_circle = refl

build_folder_breadcrumb-trail_example :
    (trail : List BreadcrumbInput) × Leads (index circle []) [] (folder "b" (some "a")) trail
    × (build_folder_breadcrumb (some "b") circle
        ≡ some (root ∷ reverse (map segment (folder "b" (some "a") ∷ trail))))
build_folder_breadcrumb-trail_example =
    build_folder_breadcrumb-trail "b" circle (folder "b" (some "a")) found_in_circle

circle_is_cut :
    build_folder_breadcrumb (some "b") circle
    ≡ some (
        root
        ∷ segment (folder "c" none)
        ∷ segment (folder "a" none)
        ∷ segment (folder "b" none)
        ∷ [])
unfolding build_folder_breadcrumb get put
circle_is_cut = refl

unknown_folder : build_folder_breadcrumb (some "z") three ≡ some (root ∷ [])
unfolding build_folder_breadcrumb get put
unknown_folder = refl
