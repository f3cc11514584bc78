-- ===== src/Throttler/Decision.antt =====
-- What `ThrottlerService.consume` answers.
use Prim.Native.String.{[] as empty, ◌∷◌ as char, ◌++◌ as append}
use text.Mathlib.TextLemmas.{nil-append, cons-append, tail-eq_of_cons-eq}
use nest_base.Base.{
  ℕ, ◌<◌, String, Bool, ◌&&◌, ◌≡◌, ◌≢◌, refl, sym, ap, ◌∙◌, Option, none, some, List, [], ◌∷◌, ◌++◌,
  map, append-nil, append_assoc, ltb, arith, eq_iff, if◌then◌else◌, All,
}
use nest_base.Base.Dict.{get, put, get-put}
use nest_base.Throttler.Store.{
  Rows, ThrottlerBackendRow, storage_record, upserted, upsert, increment,
}
use nest_base.Throttler.Service.{
  ThrottleWindow, WindowState, rejected, resolved, composite_key, is_unset, is_undefined,
  window_state, consume_windows, consume,
}

append-cancel : (s t u : String) → append s t ≡ append s u → t ≡ u
append-cancel empty t u e = sym (nil-append t) ∙ (e ∙ nil-append u)
append-cancel (char c s) t u e =
    append-cancel s t u (tail-eq_of_cons-eq (sym (cons-append c s t) ∙ (e ∙ cons-append c s u)))

-- Windows of one key differ in their rows if they differ in their names.
composite_key-inj : (key n m : String) → composite_key key n ≡ composite_key key m → n ≡ m
composite_key-inj key n m e = append-cancel "::" n m (append-cancel key _ _ e)

module _ (key : String) (now : ℕ) (db_now : ThrottleWindow → ℕ) where
  -- The row of a window that counts this request, read off the rows before it.
  abbrev pub counted : Rows → ThrottleWindow → ThrottlerBackendRow
  counted rows w = upserted (get (composite_key key w.name) rows) w.ttl_ms now (db_now w)

  abbrev pub is_over : Rows → ThrottleWindow → Bool
  is_over rows w = ltb w.limit (counted rows w).count

  abbrev pub state_of : Rows → ThrottleWindow → WindowState
  state_of rows w = window_state w (storage_record (counted rows w) w.limit now)

  -- The name of the first window over its limit.
  abbrev pub first_over : Rows → List ThrottleWindow → Option String
  first_over rows [] = none
  first_over rows (w ∷ ws) = if is_over rows w then some w.name else first_over rows ws

  -- The rows once every window has counted.
  abbrev pub counted_all : List ThrottleWindow → Rows → Rows
  counted_all [] rows = rows
  counted_all (w ∷ ws) rows = counted_all ws (put (composite_key key w.name) (counted rows w) rows)

  abbrev earlier : Option String → Option String → Option String
  earlier none o = o
  earlier (some n) o = some n

  abbrev pub AreWindows : List ThrottleWindow → Type 0
  AreWindows [] = Unit
  AreWindows (w ∷ ws) =
      (0 < w.ttl_ms) × (w.name ≢ "") × All (λ v. w.name ≢ v.name) ws × AreWindows ws

  -- Two tables that agree on the rows of the windows to come.
  abbrev Agree : Rows → Rows → List ThrottleWindow → Type 0
  Agree rows rows' ws =
      All (λ v. get (composite_key key v.name) rows ≡ get (composite_key key v.name) rows') ws

  Agree-put :
      (w : ThrottleWindow) (row : ThrottlerBackendRow) (rows rows' : Rows)
      (ws : List ThrottleWindow)
      → All (λ v. w.name ≢ v.name) ws
      → Agree rows rows' ws
      → Agree (put (composite_key key w.name) row rows) rows' ws
  Agree-put w row rows rows' [] fresh same = tt
  Agree-put w row rows rows' (v ∷ ws) fresh same = ground (
    arith,
    get-put (composite_key key w.name) (composite_key key v.name) row rows,
    eq_iff (composite_key key w.name) (composite_key key v.name),
    composite_key-inj key w.name v.name,
    Agree-put w row rows rows' ws,
  )

  Agree-self : (rows : Rows) (ws : List ThrottleWindow) → Agree rows rows ws
  Agree-self rows [] = tt
  Agree-self rows (w ∷ ws) = (refl, Agree-self rows ws)

  increment-counted :
      (w : ThrottleWindow) (rows : Rows)
      → 0 < w.ttl_ms
      → increment (composite_key key w.name) w.ttl_ms w.limit now (db_now w) rows
        ≡ some (
          storage_record (counted rows w) w.limit now,
          put (composite_key key w.name) (counted rows w) rows,
        )
  unfolding increment upsert
  increment-counted w rows h = ground arith

  consume_windows-step :
      (w : ThrottleWindow) (ws : List ThrottleWindow) (states : List WindowState)
      (v : Option String) (rows : Rows)
      → 0 < w.ttl_ms
      → consume_windows key now db_now (w ∷ ws) states v rows
        ≡ consume_windows key now db_now ws
            (states ++ (state_of rows w ∷ []))
            (if is_unset v && is_over rows w then some w.name else v)
            (put (composite_key key w.name) (counted rows w) rows)
  unfolding consume_windows
  consume_windows-step w ws states v rows h =
      ap
        (λ hit. elim hit [
          | none ↦ (rejected, rows)
          | some (hit, rows') ↦
              consume_windows key now db_now ws (states ++ (window_state w hit ∷ []))
                (if is_unset v && hit.is_blocked then some w.name else v) rows'
        ])
        (increment-counted w rows h)

  -- The name that the loop holds after one window more.
  abbrev next_violated : Rows → ThrottleWindow → Option String → Option String
  next_violated rows w v = if is_unset v && is_over rows w then some w.name else v

  next_violated-earlier :
      (w : ThrottleWindow) (ws : List ThrottleWindow) (v : Option String) (rows : Rows)
      → w.name ≢ ""
      → v ≢ some ""
      → (next_violated rows w v ≢ some "")
        × (earlier (next_violated rows w v) (first_over rows ws)
            ≡ earlier v (first_over rows (w ∷ ws)))
  next_violated-earlier w ws none rows named set = ground arith
  next_violated-earlier w ws (some n) rows named set = ground (arith, eq_iff n "")

  consume_windows-all :
      (ws : List ThrottleWindow) (states : List WindowState) (v : Option String) (rows start : Rows)
      → AreWindows ws
      → Agree rows start ws
      → v ≢ some ""
      → consume_windows key now db_now ws states v rows ≡ (
        resolved (record {
          allowed = is_undefined (earlier v (first_over start ws));
          violated_window = earlier v (first_over start ws);
          windows = states ++ map (state_of start) ws;
        }),
        counted_all ws rows,
      )
  consume_windows-all [] states none rows start h same set = unfold consume_windows in rw append-nil
  consume_windows-all [] states (some n) rows start h same set =
      unfold consume_windows in rw append-nil
  consume_windows-all (w ∷ ws) states v rows start h same set =
      let (set', first) = next_violated-earlier w ws v start h.1 set in
      let agree = Agree-put w (counted start w) rows start ws h.2 same.1 in
      let tail =
        consume_windows-all ws (states ++ (state_of start w ∷ [])) (next_violated start w v)
          (put (composite_key key w.name) (counted start w) rows) start h.3 agree set' in
      rw (consume_windows-step w ws states v rows h.0, same.0, tail, first, append_assoc)

  -- For windows of positive length, with names that differ and are not empty, a request is counted in
  -- every window, whatever is decided. It is allowed exactly when no window is then over its limit,
  -- the window reported is the first one over its limit, and each window's state is that of its own
  -- row.
  pub consume-decision :
      (w : ThrottleWindow) (ws : List ThrottleWindow) (rows : Rows)
      → AreWindows (w ∷ ws)
      → consume key now db_now (w ∷ ws) rows ≡ (
        resolved (record {
          allowed = is_undefined (first_over rows (w ∷ ws));
          violated_window = first_over rows (w ∷ ws);
          windows = map (state_of rows) (w ∷ ws);
        }),
        counted_all (w ∷ ws) rows,
      )
  unfolding consume
  consume-decision w ws rows h =
      consume_windows-all (w ∷ ws) [] none rows rows h (Agree-self rows (w ∷ ws)) (λ e. cc)
