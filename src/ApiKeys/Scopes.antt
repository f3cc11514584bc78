-- ===== src/ApiKeys/Scopes.antt =====
-- The scope strings of core/auth/api-keys/api-key-scope-planner.ts and their rules. The names that
-- every JavaScript object inherits (`constructor`, ...) are left out of the lookup of a resource.
use Prim.Native.String.{String, ◌++◌ as append}
use mathlib.Core.Option.{map as option_map}
use nest_base.Base.{
  Bool, ◌||◌, Option, none, some, List, [], ◌∷◌, any, find?, not, str_eq, if◌then◌else◌,
}
use nest_base.Base.Dict.{Dict, get}
use nest_base.Base.Split.{split}

abbrev pub contains : String → List String → Bool
contains s xs = any (λ x. str_eq x s) xs

abbrev pub api_key_scope_allowlist : List String
api_key_scope_allowlist =
    "read:profile" ∷ "read:users" ∷ "write:users" ∷ "read:example" ∷ "write:example" ∷ "files:read"
    ∷ "files:write" ∷ "read:file" ∷ "write:file" ∷ "read:folder" ∷ "write:folder" ∷ "read:address"
    ∷ "write:address" ∷ "read:invoice" ∷ "write:invoice" ∷ []

abbrev pub resource_to_subject : Dict String
resource_to_subject =
    ("profile", "UserProfile")
    ∷ ("users", "User")
    ∷ ("user", "User")
    ∷ ("example", "Example")
    ∷ ("examples", "Example")
    ∷ ("files", "File")
    ∷ ("file", "File")
    ∷ ("folder", "Folder")
    ∷ ("folders", "Folder")
    ∷ ("address", "Address")
    ∷ ("invoice", "Invoice")
    ∷ []

abbrev pub read_actions : List String
read_actions = "read" ∷ []

abbrev pub write_actions : List String
write_actions = "write" ∷ "create" ∷ "update" ∷ "delete" ∷ "manage" ∷ []

pub record ParsedApiKeyScope : Type 0 where
  pub action : String
  pub subject : String

-- The error's message, or none where the scopes pass.
unfoldable pub validate_api_key_scopes : List String → Option String
validate_api_key_scopes [] = some "api key requires at least one scope"
validate_api_key_scopes (scope ∷ scopes) =
    option_map (λ s. append "unknown api key scope \"" (append s "\""))
      (find? (λ s. not (contains s api_key_scope_allowlist)) (scope ∷ scopes))

-- The verb and the subject that the resource stands for.
unfoldable pub scope_of : (verb : String) → Option String → Option ParsedApiKeyScope
scope_of verb none = none
scope_of verb (some subject) = some (record {
  action = if contains verb write_actions then "manage" else "read";
  subject = subject;
})

unfoldable pub parse_parts : List String → Option ParsedApiKeyScope
unfolding scope_of
parse_parts (left ∷ right ∷ []) =
    if contains left read_actions || contains left write_actions
    then scope_of left (get right resource_to_subject)
    else if contains right read_actions || contains right write_actions
    then scope_of right (get left resource_to_subject)
    else none
parse_parts parts = none

unfoldable pub parse_api_key_scope : String → Option ParsedApiKeyScope
unfolding parse_parts
parse_api_key_scope scope = parse_parts (split ":" scope)
