-- ===== src/StoragePath/Tests.antt =====
-- Paths of files, and the theorem on them at a concrete input.
use Prim.Native.Char.{Char, code}
use nest_base.Base.{Bool, ◌&&◌, ◌||◌, none, leb, ◌≡◌, refl, arith}
use nest_base.StoragePath.{
  ResolveStoragePathInput, resolved, refused, sanitise_filename, resolve_storage_path,
}
use nest_base.StoragePath.Keys.{resolve_storage_path-inj}

-- The letters a to z and the digits.
abbrev is_plain : Char → Bool
is_plain c = (leb 97 (code c) && leb (code c) 122) || (leb 48 (code c) && leb (code c) 57)

abbrev photo : ResolveStoragePathInput
photo = record { tenant_id = "t1"; folder_id = none; file_id = "f7"; filename = "../a b/photo.jpg" }

photo_path : resolve_storage_path is_plain photo ≡ resolved "t1/_root/f7-a-b-photo.jpg"
unfolding resolve_storage_path
photo_path = refl

only_slashes :
    sanitise_filename is_plain "//.." ≡ refused "storage-path: filename is empty after sanitisation"
unfolding sanitise_filename
only_slashes = refl

-- Another name that comes to the same path, for the same file.
other_path :
    resolve_storage_path is_plain (record photo { filename = "a/b/photo.jpg" })
    ≡ resolved "t1/_root/f7-a-b-photo.jpg"
unfolding resolve_storage_path
other_path = refl

abbrev renamed : ResolveStoragePathInput
renamed = record photo { filename = "a/b/photo.jpg" }

resolve_storage_path-inj_example :
    (photo.tenant_id ≡ renamed.tenant_id)
    × (photo.folder_id ≡ renamed.folder_id)
    × (photo.file_id ≡ renamed.file_id)
resolve_storage_path-inj_example =
    resolve_storage_path-inj is_plain photo renamed "t1/_root/f7-a-b-photo.jpg" photo_path
      other_path (ground arith) (ground arith) tt tt tt
