-- ===== src/StoragePath.antt =====
-- core/files/storage-path.ts: the key under which a file is stored. `is_alphanumeric` tells the
-- characters of \p{L} and \p{N}, a parameter.
use Prim.Native.Char.{Char, code}
use Prim.Native.String.{String, [] as empty, ◌∷◌ as char, ◌++◌ as append}
use nest_base.Base.{
  Bool, not, ◌&&◌, ◌||◌, Option, none, some, List, [], ◌∷◌, filter, str_eq, ◌==◌, if◌then◌else◌,
}
use nest_base.Base.Text.{replace_all}
use nest_base.Base.Split.{split}
pub mod Keys
mod Tests

pub record ResolveStoragePathInput : Type 0 where
  pub tenant_id : String
  pub folder_id : Option String
  pub file_id : String
  pub filename : String

-- A text, or the message of the error.
pub data Resolved : Type 0 where
  resolved : String → Resolved
  refused : (message : String) → Resolved

-- segments.join("-")
unfoldable pub join : List String → String
join [] = empty
join (s ∷ []) = s
join (s ∷ t ∷ ts) = append s (char "-" (join (t ∷ ts)))

-- input ?? "_root"
abbrev pub folder_of : Option String → String
folder_of none = "_root"
folder_of (some folder) = folder

module _ (is_alphanumeric : Char → Bool) where
  abbrev pub is_safe : Char → Bool
  is_safe c = is_alphanumeric c || code c == b'.' || code c == b'_' || code c == b'-'

  unfoldable pub replace_unsafe : String → String
  replace_unsafe empty = empty
  replace_unsafe (char c s) =
      let rest = replace_unsafe s in if is_safe c then char c rest else char "-" rest

  unfoldable pub sanitise_filename : String → Resolved
  unfolding replace_unsafe join split replace_all
  sanitise_filename input =
      let segments =
        filter (λ seg. not (str_eq seg "") && not (str_eq seg ".."))
          (split "/" (replace_all "\\" "/" input)) in
      let safe = replace_unsafe (join segments) in
      if str_eq input ""
      then refused "storage-path: filename is required"
      else if str_eq safe ""
      then refused "storage-path: filename is empty after sanitisation"
      else resolved safe

  abbrev pub path_of : ResolveStoragePathInput → (clean_filename : String) → String
  path_of input clean_filename = append input.tenant_id (
      char "/" (
        append (folder_of input.folder_id)
          (char "/" (append input.file_id (char "-" clean_filename)))))

  unfoldable pub placed : ResolveStoragePathInput → Resolved → Resolved
  placed input (resolved clean_filename) = resolved (path_of input clean_filename)
  placed input (refused message) = refused message

  unfoldable pub resolve_storage_path : ResolveStoragePathInput → Resolved
  unfolding placed sanitise_filename
  resolve_storage_path input =
      if str_eq input.tenant_id ""
      then refused "storage-path: tenantId is required"
      else if str_eq input.file_id ""
      then refused "storage-path: fileId is required"
      else if str_eq input.filename ""
      then refused "storage-path: filename is required"
      else placed input (sanitise_filename input.filename)
