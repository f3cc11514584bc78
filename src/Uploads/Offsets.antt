-- ===== src/Uploads/Offsets.antt =====
-- Where an upload stands, and how it ends.
use nest_base.Base.{
  ℕ, ◌+◌, ◌≤◌, ◌<◌, String, not, ◌≡◌, ◌↔◌, inl, inr, refl, ◌∙◌, some, arith, Option-cases, ◌==◌,
  ltb, if◌then◌else◌,
}
use nest_base.Base.Dict.{get as find, put, Values, Values-put, Values-remove, Values-get}
use nest_base.Uploads.Session.{
  UploadSession, CreateSessionInput, Answer, returned, pending, partial, complete, too_large,
  offset_mismatch, already_complete, Sessions, UploadStatus, is_complete, patch, update, create,
  append_to, append_chunk, abort,
}

-- A session has a length, is within it, and is complete exactly at its end.
abbrev pub IsSession : UploadSession → Type 0
IsSession r =
    (0 < r.upload_length)
    × (r.offset ≤ r.upload_length)
    × ((r.status ≡ complete) ↔ (r.offset ≡ r.upload_length))

abbrev pub AreSessions : Sessions → Type 0
AreSessions rows = Values IsSession rows

-- The session after a chunk that fits.
abbrev pub grown : UploadSession → ℕ → UploadSession
grown r len = record r {
  offset = r.offset + len;
  status = if r.offset + len == r.upload_length then complete else partial;
}

update-found :
    (id : String) (offset : ℕ) (status : UploadStatus) (r : UploadSession) (rows : Sessions)
    → find id rows ≡ some r
    → update id offset status rows ≡ (
      some (record r { offset = offset; status = status }),
      put id (record r { offset = offset; status = status }) rows,
    )
unfolding update patch
update-found id offset status r rows found = rw found refl

-- `appendChunk` for a session that is there.
abbrev pub answered : String → ℕ → ℕ → UploadSession → Sessions → Answer × Sessions
answered id offset len r rows =
    if is_complete r.status
    then (already_complete id, rows)
    else if not (offset == r.offset)
    then (offset_mismatch r.offset offset, rows)
    else if ltb r.upload_length (r.offset + len)
    then (too_large r.upload_length, rows)
    else (returned (grown r len), put id (grown r len) rows)

pub append_chunk-found :
    (id : String) (offset len : ℕ) (r : UploadSession) (rows : Sessions)
    → find id rows ≡ some r
    → append_chunk id offset len rows ≡ answered id offset len r rows
unfolding append_chunk append_to
append_chunk-found id offset len r rows found =
    let status : UploadStatus = if r.offset + len == r.upload_length then complete else partial in
    rw (found, update-found id (r.offset + len) status r rows found) refl

pub grown-IsSession :
    (r : UploadSession) (len : ℕ)
    → IsSession r
    → r.offset + len ≤ r.upload_length
    → IsSession (grown r len)
grown-IsSession r len h fits = ground arith

create-AreSessions :
    (most : ℕ) (id : String) (input : CreateSessionInput) (rows : Sessions)
    → AreSessions rows
    → AreSessions (create most id input rows).1
unfolding create
create-AreSessions most id input rows h =
    let fresh : UploadSession = record {
      id = id;
      upload_length = input.upload_length;
      offset = 0;
      mime_type = input.mime_type;
      status = pending;
    } in
    ground (arith, Values-put IsSession id fresh rows)

answered-AreSessions :
    (id : String) (offset len : ℕ) (r : UploadSession) (rows : Sessions)
    → IsSession r
    → AreSessions rows
    → AreSessions (answered id offset len r rows).1
answered-AreSessions id offset len r rows hr h =
    ground (arith, Values-put IsSession id (grown r len) rows, grown-IsSession r len hr)

append_chunk-AreSessions :
    (id : String) (offset len : ℕ) (rows : Sessions)
    → AreSessions rows
    → AreSessions (append_chunk id offset len rows).1
append_chunk-AreSessions id offset len rows h = elim (Option-cases (find id rows)) [
  | inl e ↦ unfold append_chunk in unfold append_to in rw e h
  | inr (r, e) ↦
      rw (append_chunk-found id offset len r rows e)
        (answered-AreSessions id offset len r rows (Values-get IsSession id r rows h e) h)
]

-- Creating, appending and aborting keep each session within its length, with the status that its
-- offset says, whatever the arguments are.
pub step-AreSessions :
    (most offset len : ℕ) (id : String) (input : CreateSessionInput) (rows : Sessions)
    → AreSessions rows
    → AreSessions (create most id input rows).1
      × AreSessions (append_chunk id offset len rows).1
      × AreSessions (abort id rows).1
unfolding abort
step-AreSessions most offset len id input rows h = (
  create-AreSessions most id input rows h,
  append_chunk-AreSessions id offset len rows h,
  Values-remove IsSession id rows h,
)

pub append_chunk-fits :
    (id : String) (len : ℕ) (r : UploadSession) (rows : Sessions)
    → IsSession r
    → find id rows ≡ some r
    → r.offset < r.upload_length
    → r.offset + len ≤ r.upload_length
    → append_chunk id r.offset len rows ≡ (returned (grown r len), put id (grown r len) rows)
append_chunk-fits id len r rows hr found room fits =
    append_chunk-found id r.offset len r rows found ∙ ground (arith, hr.2)
