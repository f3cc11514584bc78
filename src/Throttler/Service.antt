-- ===== src/Throttler/Service.antt =====
-- `ThrottlerService.consume` of core/throttler/throttler.ts.
use Prim.Native.String
use nest_base.Base.{
  ℕ, ◌-◌, String, Bool, true, false, ◌&&◌, Option, none, some, List, [], ◌∷◌, ◌++◌, str_eq,
  if◌then◌else◌,
}
use nest_base.Throttler.Store.{Rows, ThrottlerStorageRecord, increment}

pub record ThrottleWindow : Type 0 where
  pub name : String
  pub limit : ℕ
  pub ttl_ms : ℕ

pub record WindowState : Type 0 where
  pub name : String
  pub remaining : ℕ
  pub reset_seconds : ℕ

pub record ConsumeResult : Type 0 where
  pub allowed : Bool
  pub violated_window : Option String
  pub windows : List WindowState

-- A call rejects if there is no window, or if the store throws.
pub data Consumed : Type 0 where
  rejected : Consumed
  resolved : ConsumeResult → Consumed

-- `${input.key}::${window.name}`
abbrev pub composite_key : String → String → String
composite_key key name = String.◌++◌ key (String.◌++◌ "::" name)

-- !violatedWindow: the empty name counts as no name
abbrev pub is_unset : Option String → Bool
is_unset none = true
is_unset (some name) = str_eq name ""

abbrev pub is_undefined : Option String → Bool
is_undefined none = true
is_undefined (some _) = false

abbrev pub window_state : ThrottleWindow → ThrottlerStorageRecord → WindowState
window_state window hit = record {
  name = window.name;
  remaining = window.limit - hit.total_hits;
  reset_seconds = hit.time_to_expire;
}

-- `db_now` is the database's clock at the statement of each window.
module _ (key : String) (now : ℕ) (db_now : ThrottleWindow → ℕ) where
  -- The loop over the windows.
  unfoldable pub consume_windows :
      List ThrottleWindow
      → (states : List WindowState) (violated_window : Option String) → Rows
      → Consumed × Rows
  consume_windows [] states violated rows = (
    resolved
        (record { allowed = is_undefined violated; violated_window = violated; windows = states }),
    rows,
  )
  consume_windows (w ∷ windows) states violated rows =
      elim (increment (composite_key key w.name) w.ttl_ms w.limit now (db_now w) rows) [
        | none ↦ (rejected, rows)
        | some (hit, rows') ↦
            consume_windows windows (states ++ (window_state w hit ∷ []))
              (if is_unset violated && hit.is_blocked then some w.name else violated) rows'
      ]

  unfoldable pub consume : List ThrottleWindow → Rows → Consumed × Rows
  unfolding consume_windows
  consume [] rows = (rejected, rows)
  consume (w ∷ windows) rows = consume_windows (w ∷ windows) [] none rows
