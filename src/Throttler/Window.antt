-- ===== src/Throttler/Window.antt =====
-- Requests that follow each other within one window.
use nest_base.Base.{
  ℕ, ◌+◌, ◌<◌, ◌≤◌, String, Bool, ◌≡◌, refl, ap, ◌∙◌, Option, none, some, List, [], ◌∷◌, ltb, ◌==◌,
  arith, eq_refl, if◌then◌else◌, All,
}
use nest_base.Base.Dict.{get, put, get-put}
use nest_base.Throttler.Store.{
  Rows, ThrottlerBackendRow, ThrottlerStorageRecord, storage_record, upserted, upsert, increment,
}

-- The clocks of one request: the caller's and the database's.
abbrev pub Clocks : Type 0
Clocks = ℕ × ℕ

module _ (key : String) (ttl_ms limit : ℕ) where
  -- Whether each request of a sequence is blocked, and the rows after the last one. A call that
  -- throws ends the sequence.
  unfoldable pub increments : List Clocks → Rows → List Bool × Rows
  increments [] rows = ([], rows)
  increments ((now, db_now) ∷ ts) rows = elim (increment key ttl_ms limit now db_now rows) [
    | none ↦ ([], rows)
    | some (hit, rows') ↦
        let (blocked, last) = increments ts rows' in (hit.is_blocked ∷ blocked, last)
  ]

  -- The blocks of requests that are counted from `n` on.
  abbrev pub blocked_from : ℕ → List Clocks → List Bool
  blocked_from n [] = []
  blocked_from n (t ∷ ts) = ltb limit n ∷ blocked_from (n + 1) ts

  abbrev counting : (n expiry : ℕ) → ThrottlerBackendRow
  counting n expiry = record { count = n; expires_at = expiry }

  -- `increment` when the key's row is `o`
  abbrev increment_at :
      Option ThrottlerBackendRow → (now db_now : ℕ) → Rows → Option (ThrottlerStorageRecord × Rows)
  increment_at o now db_now rows =
      let row = upserted o ttl_ms now db_now in
      if ttl_ms == 0 then none else some (storage_record row limit now, put key row rows)

  increment-get :
      (now db_now : ℕ) (rows : Rows)
      → increment key ttl_ms limit now db_now rows ≡ increment_at (get key rows) now db_now rows
  unfolding increment upsert
  increment-get now db_now rows = ground arith

  increment-open :
      (n expiry now db_now : ℕ) (rows : Rows)
      → 0 < ttl_ms
      → get key rows ≡ some (counting n expiry)
      → db_now < expiry
      → increment key ttl_ms limit now db_now rows
        ≡ some (
          storage_record (counting (n + 1) expiry) limit now,
          put key (counting (n + 1) expiry) rows,
        )
  unfolding upserted
  increment-open n expiry now db_now rows h e before =
      increment-get now db_now rows ∙ (ap (λ o. increment_at o now db_now rows) e ∙ ground arith)

  get-counting : (row : ThrottlerBackendRow) (rows : Rows) → get key (put key row rows) ≡ some row
  get-counting row rows = simp (get-put, eq_refl)

  increments-step :
      (now db_now : ℕ) (ts : List Clocks) (rows rows' : Rows) (hit : ThrottlerStorageRecord)
      → increment key ttl_ms limit now db_now rows ≡ some (hit, rows')
      → (increments ((now, db_now) ∷ ts) rows).0 ≡ hit.is_blocked ∷ (increments ts rows').0
  unfolding increments
  increments-step now db_now ts rows rows' hit e =
      ap
        (λ o.
          (elim o as (λ x. List Bool × Rows) [
            | none ↦ ([], rows)
            | some (hit, rows') ↦
                let (blocked, last) = increments ts rows' in (hit.is_blocked ∷ blocked, last)
          ]).0)
        e

  increments-open :
      (n expiry : ℕ) (ts : List Clocks) (rows : Rows)
      → 0 < ttl_ms
      → get key rows ≡ some (counting n expiry)
      → All (λ t. t.1 < expiry) ts
      → (increments ts rows).0 ≡ blocked_from (n + 1) ts
  unfolding increments
  increments-open n expiry [] rows h e before = refl
  increments-open n expiry ((now, db_now) ∷ ts) rows h e before =
      let row = counting (n + 1) expiry in
      increments-step now db_now ts rows (put key row rows) (storage_record row limit now)
        (increment-open n expiry now db_now rows h e before.0)
      ∙ ap (λ later. ltb limit (n + 1) ∷ later)
          (increments-open (n + 1) expiry ts (put key row rows) h (get-counting row rows) before.1)

  -- No row of the key is open at the database's clock.
  abbrev pub IsClosed : Option ThrottlerBackendRow → (db_now : ℕ) → Type 0
  IsClosed none db_now = Unit
  IsClosed (some row) db_now = row.expires_at ≤ db_now

  increment-closed :
      (now db_now : ℕ) (rows : Rows)
      → 0 < ttl_ms
      → IsClosed (get key rows) db_now
      → increment key ttl_ms limit now db_now rows
        ≡ some (
          storage_record (counting 1 (now + ttl_ms)) limit now,
          put key (counting 1 (now + ttl_ms)) rows,
        )
  unfolding upserted
  increment-closed now db_now rows h closed =
      increment-get now db_now rows ∙ closed_at (get key rows) closed
    where
      closed_at :
          (o : Option ThrottlerBackendRow)
          → IsClosed o db_now
          → increment_at o now db_now rows
            ≡ some (
              storage_record (counting 1 (now + ttl_ms)) limit now,
              put key (counting 1 (now + ttl_ms)) rows,
            )
      closed_at none c = ground arith
      closed_at (some row) c = ground arith

  -- The first request after a window has ended opens a new one that ends `ttlMs` after the caller's
  -- clock. Of the requests that reach the database before that end, the first one included, the n-th
  -- is blocked exactly when n is more than the limit.
  pub increments-window :
      (now db_now : ℕ) (ts : List Clocks) (rows : Rows)
      → 0 < ttl_ms
      → IsClosed (get key rows) db_now
      → All (λ t. t.1 < now + ttl_ms) ts
      → (increments ((now, db_now) ∷ ts) rows).0 ≡ blocked_from 1 ((now, db_now) ∷ ts)
  increments-window now db_now ts rows h closed before =
      let row = counting 1 (now + ttl_ms) in
      increments-step now db_now ts rows (put key row rows) (storage_record row limit now)
        (increment-closed now db_now rows h closed)
      ∙ ap (λ later. ltb limit 1 ∷ later)
          (increments-open 1 (now + ttl_ms) ts (put key row rows) h (get-counting row rows) before)
