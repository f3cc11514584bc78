-- ===== src/Uploads/Resume.antt =====
-- Chunks that arrive in order, and chunks that arrive again.
use nest_base.Base.{
  ℕ, ◌+◌, ◌≤◌, ◌<◌, String, ◌≡◌, refl, sym, ◌∙◌, some, List, [], ◌∷◌, arith, All, Option-cases, inl,
  inr, eq_refl,
}
use nest_base.Base.Dict.{get as find, put, get-put}
use nest_base.Uploads.Session.{
  UploadSession, returned, Sessions, not_found, append_to, append_chunk,
}
use nest_base.Uploads.Offsets.{
  IsSession, grown, grown-IsSession, answered, append_chunk-found, append_chunk-fits,
}

answered-returned :
    (id : String) (offset len : ℕ) (q : UploadSession) (rows rows' : Sessions) (r : UploadSession)
    → answered id offset len q rows ≡ (returned r, rows')
    → (offset ≡ q.offset) × (put id (grown q len) rows ≡ rows')
answered-returned id offset len q rows rows' r e = ground arith

answered-past :
    (id : String) (offset len : ℕ) (q : UploadSession) (rows : Sessions)
    → 0 < len
    → offset ≡ q.offset
    → (answered id offset len (grown q len) rows).1 ≡ rows
answered-past id offset len q rows h e = ground arith

-- A chunk that has been accepted and that a client sends again at the same offset is refused, and
-- changes nothing, if it holds a byte.
pub append_chunk-again :
    (id : String) (offset len : ℕ) (rows rows' : Sessions) (r : UploadSession)
    → 0 < len
    → append_chunk id offset len rows ≡ (returned r, rows')
    → (append_chunk id offset len rows').1 ≡ rows'
append_chunk-again id offset len rows rows' r some_bytes accepted =
    elim (Option-cases (find id rows)) [
      | inl e ↦ absurd (
          unfold append_chunk in
          unfold append_to in
          (let refused : append_to id offset len (find id rows) rows ≡ (not_found id, rows) =
              rw e refl in
            cc))
      | inr (q, e) ↦
          let (at_end, same) =
            answered-returned id offset len q rows rows' r
              (sym (append_chunk-found id offset len q rows e) ∙ accepted) in
          rw (sym same) (
            rw
              (append_chunk-found id offset len (grown q len) (put id (grown q len) rows)
                (simp (get-put, eq_refl)))
              (answered-past id offset len q (put id (grown q len) rows) some_bytes at_end))
    ]

-- Chunks one after the other, each at the offset that the session has then.
unfoldable pub append_all : (id : String) → (offset : ℕ) → List ℕ → Sessions → Sessions
append_all id offset [] rows = rows
append_all id offset (len ∷ lens) rows =
    append_all id (offset + len) lens (append_chunk id offset len rows).1

abbrev pub total : List ℕ → ℕ
total [] = 0
total (len ∷ lens) = len + total lens

-- What the session comes to.
abbrev pub ended : UploadSession → List ℕ → UploadSession
ended r [] = r
ended r (len ∷ lens) = ended (grown r len) lens

-- Chunks that each hold a byte and that together fit into what is missing are all accepted: the
-- session's offset grows by their total, and it is complete if they reach its length.
pub append_all-total :
    (id : String) (lens : List ℕ) (r : UploadSession) (rows : Sessions)
    → IsSession r
    → find id rows ≡ some r
    → All (λ len. 0 < len) lens
    → r.offset + total lens ≤ r.upload_length
    → (q : UploadSession) × (find id (append_all id r.offset lens rows) ≡ some q)
      × (q.offset ≡ r.offset + total lens)
      × (q.upload_length ≡ r.upload_length)
      × IsSession q
unfolding append_all
append_all-total id [] r rows hr found each fits = (r, found, omega arith, refl, hr)
append_all-total id (len ∷ lens) r rows hr found each fits =
    let step = append_chunk-fits id len r rows hr found (omega arith) (omega arith) in
    let rows' = put id (grown r len) rows in
    let (q, there, offset, length, hq) =
      append_all-total id lens (grown r len) rows' (grown-IsSession r len hr (omega arith))
        (simp (get-put, eq_refl)) each.1 (omega arith) in
    rw step (q, there, omega (arith, offset), length, hq)
