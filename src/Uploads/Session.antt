-- ===== src/Uploads/Session.antt =====
-- `UploadSessionManager` of core/files/upload-session.ts. New ids come from outside, and the storage
-- is taken not to fail. A chunk is its number of bytes.
use nest_base.Base.{
  ℕ, ◌+◌, String, Bool, true, false, not, Option, none, some, ltb, ◌==◌, if◌then◌else◌,
}
use nest_base.Base.Dict.{Dict, get as find, put, remove, has}

pub data UploadStatus : Type 0 where
  pending partial complete : UploadStatus

pub record UploadSession : Type 0 where
  pub id : String
  pub upload_length : ℕ
  pub offset : ℕ
  pub mime_type : String
  pub status : UploadStatus

pub record CreateSessionInput : Type 0 where
  pub upload_length : ℕ
  pub mime_type : String

-- What a call returns, or the exception it throws.
pub data Answer : Type 0 where
  returned : UploadSession → Answer
  length_not_positive : Answer
  too_large : (limit : ℕ) → Answer
  not_found : (id : String) → Answer
  already_complete : (id : String) → Answer
  offset_mismatch : (expected actual : ℕ) → Answer

abbrev pub Sessions : Type 0
Sessions = Dict UploadSession

unfoldable pub patch :
    String
    → (offset : ℕ) → UploadStatus
    → Option UploadSession
    → Sessions
    → Option UploadSession × Sessions
patch id offset status none rows = (none, rows)
patch id offset status (some session) rows =
    let patched : UploadSession = record session { offset = offset; status = status } in
    (some patched, put id patched rows)

-- `update(id, { offset, status })`: the patched row, or nothing
unfoldable pub update :
    String → (offset : ℕ) → UploadStatus → Sessions → Option UploadSession × Sessions
unfolding patch
update id offset status rows = patch id offset status (find id rows) rows

unfoldable pub create :
    (max_upload_bytes : ℕ) (new_id : String) → CreateSessionInput → Sessions → Answer × Sessions
create max_upload_bytes new_id input rows =
    if input.upload_length == 0
    then (length_not_positive, rows)
    else if ltb max_upload_bytes input.upload_length
    then (too_large max_upload_bytes, rows)
    else (let session : UploadSession = record {
      id = new_id;
      upload_length = input.upload_length;
      offset = 0;
      mime_type = input.mime_type;
      status = pending;
    } in
        (returned session, put new_id session rows))

abbrev pub is_complete : UploadStatus → Bool
is_complete complete = true
is_complete _ = false

-- if (!updated) throw …
abbrev pub answer_of : String → Option UploadSession → Answer
answer_of id none = not_found id
answer_of id (some updated) = returned updated

-- The part of `appendChunk` after the session has been read.
unfoldable pub append_to :
    (id : String) (offset byte_length : ℕ) → Option UploadSession → Sessions → Answer × Sessions
unfolding update
append_to id offset byte_length none rows = (not_found id, rows)
append_to id offset byte_length (some session) rows =
    let new_offset = session.offset + byte_length in
    let status : UploadStatus = if new_offset == session.upload_length then complete else partial in
    let (updated, rows') = update id new_offset status rows in
    if is_complete session.status
    then (already_complete id, rows)
    else if not (offset == session.offset)
    then (offset_mismatch session.offset offset, rows)
    else if ltb session.upload_length new_offset
    then (too_large session.upload_length, rows)
    else (answer_of id updated, rows')

unfoldable pub append_chunk : (id : String) (offset byte_length : ℕ) → Sessions → Answer × Sessions
unfolding append_to
append_chunk id offset byte_length rows = append_to id offset byte_length (find id rows) rows

unfoldable pub get : (id : String) → Sessions → Answer
get id rows = answer_of id (find id rows)

unfoldable pub abort : (id : String) → Sessions → Bool × Sessions
abort id rows = (has id rows, remove id rows)
