-- ===== src/Uploads/Tests.antt =====
-- Runs of resumable uploads, and the theorems at concrete inputs.
use nest_base.Base.{◌+◌, ◌≡◌, refl, some, [], ◌∷◌, arith}
use nest_base.Base.Dict.{get as find, put}
use nest_base.Uploads.Session.{
  UploadSession, CreateSessionInput, pending, complete, returned, Sessions, update, patch, create,
  append_to, append_chunk, abort,
}
use nest_base.Uploads.Offsets.{IsSession, AreSessions, grown, step-AreSessions}
use nest_base.Uploads.Resume.{append_chunk-again, append_all, append_all-total}

abbrev fresh : UploadSession
fresh = record {
  id = "u";
  upload_length = 10;
  offset = 0;
  mime_type = "text/plain";
  status = pending;
}

abbrev rows : Sessions
rows = ("u", fresh) ∷ []

fresh-IsSession : IsSession fresh
fresh-IsSession = ground arith

abbrev asked : CreateSessionInput
asked = record { upload_length = 12; mime_type = "image/png" }

step-AreSessions_example :
    AreSessions (create 100 "u" asked rows).1
    × AreSessions (append_chunk "u" 0 4 rows).1
    × AreSessions (abort "u" rows).1
step-AreSessions_example = step-AreSessions 100 0 4 "u" asked rows (fresh-IsSession, tt)

last_chunk : append_chunk "u" 4 6 (append_chunk "u" 0 4 rows).1 ≡ (
  returned (record fresh { offset = 10; status = complete }),
  ("u", record fresh { offset = 10; status = complete }) ∷ [],
)
unfolding append_chunk append_to update patch find put
last_chunk = refl

append_chunk-again_example :
    (append_chunk "u" 0 4 (("u", grown fresh 4) ∷ [])).1 ≡ ("u", grown fresh 4) ∷ []
unfolding append_chunk append_to update patch find put
append_chunk-again_example =
    append_chunk-again "u" 0 4 rows (("u", grown fresh 4) ∷ []) (grown fresh 4) (omega arith) refl

append_all-total_example :
    (q : UploadSession) × (find "u" (append_all "u" 0 (4 ∷ 6 ∷ []) rows) ≡ some q)
    × (q.offset ≡ 0 + 10)
    × (q.upload_length ≡ 10)
    × IsSession q
unfolding find
append_all-total_example =
    append_all-total "u" (4 ∷ 6 ∷ []) fresh rows fresh-IsSession refl
      (omega arith, (omega arith, tt)) (omega arith)
