-- ===== src/Throttler/Store.antt =====
-- `PostgresThrottlerBackend` of core/throttler/throttler-postgres-backend.ts, the table's other
-- statements there, and `PostgresThrottlerStore` of throttler.ts. The table has one row per key.
use nest_base.Base.{ℕ, ◌+◌, ◌-◌, ◌/◌, String, Bool, Option, none, some, ltb, ◌==◌, if◌then◌else◌}
use nest_base.Base.Dict.{Dict, get, put, remove, has}

pub record ThrottlerBackendRow : Type 0 where
  pub count : ℕ
  pub expires_at : ℕ

abbrev pub Rows : Type 0
Rows = Dict ThrottlerBackendRow

pub record ThrottlerStorageRecord : Type 0 where
  pub total_hits : ℕ
  pub time_to_expire : ℕ
  pub is_blocked : Bool
  pub time_to_block_expire : ℕ

-- INSERT … ON CONFLICT DO UPDATE: `db_now` is NOW(), the database's clock, and `now` the caller's.
unfoldable pub upserted : Option ThrottlerBackendRow → (ttl_ms now db_now : ℕ) → ThrottlerBackendRow
upserted none ttl_ms now db_now = record { count = 1; expires_at = now + ttl_ms }
upserted (some row) ttl_ms now db_now =
    if ltb db_now row.expires_at
    then record { count = row.count + 1; expires_at = row.expires_at }
    else record { count = 1; expires_at = now + ttl_ms }

-- `none` is the error that `ttlMs` is not positive.
unfoldable pub upsert :
    (key : String) (ttl_ms now db_now : ℕ) → Rows → Option (ThrottlerBackendRow × Rows)
upsert key ttl_ms now db_now rows =
    let row = upserted (get key rows) ttl_ms now db_now in
    if ttl_ms == 0 then none else some (row, put key row rows)

unfoldable pub reset : (key : String) → Rows → Rows
reset key rows = remove key rows

-- DELETE … RETURNING: whether a row was deleted
unfoldable pub reset_throttler_key : (key : String) → Rows → Bool × Rows
reset_throttler_key key rows = (has key rows, remove key rows)

abbrev pub storage_record : ThrottlerBackendRow → (limit now : ℕ) → ThrottlerStorageRecord
storage_record row limit now =
    let time_to_expire = (row.expires_at - now) / 1000 in
    record {
      total_hits = row.count;
      time_to_expire = time_to_expire;
      is_blocked = ltb limit row.count;
      time_to_block_expire = time_to_expire;
    }

unfoldable pub increment :
    (key : String) (ttl_ms limit now db_now : ℕ) → Rows → Option (ThrottlerStorageRecord × Rows)
unfolding upsert
increment key ttl_ms limit now db_now rows = elim (upsert key ttl_ms now db_now rows) [
  | none ↦ none
  | some (row, rows') ↦ some (storage_record row limit now, rows')
]
