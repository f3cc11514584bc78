-- ===== src/Idempotency/Hash.antt =====
-- `computeRequestHash` and `stableStringify` of core/idempotency/idempotency.service.ts. A request
-- body is a JSON value; SHA-256, `JSON.stringify` of a scalar, `toUpperCase` and `localeCompare` are
-- the platform's.
use Prim.Native.String.{◌++◌}
use nest_base.Base.{ℕ, String, Bool, List, [], ◌∷◌, if◌then◌else◌}

pub data Scalar : Type 0 where
  null : Scalar
  bool : Bool → Scalar
  num : ℕ → Scalar
  str : String → Scalar

mutual
  pub data Json : Type 0 where
    scalar : Scalar → Json
    arr : Items → Json
    obj : Fields → Json

  pub data Items : Type 0 where
    nil : Items
    cons : Json → Items → Items

  pub data Fields : Type 0 where
    end : Fields
    field : String → Json → Fields → Fields

pub record Platform : Type 0 where
  pub sha256 : String → String
  pub to_upper_case : String → String
  pub json_stringify : Scalar → String
  -- a.localeCompare(b) <= 0
  pub locale_le : String → String → Bool

pub record Request : Type 0 where
  pub method : String
  pub path : String
  pub body : Json

-- Array.prototype.join(",")
unfoldable pub join : List String → String
join [] = ""
join (t ∷ []) = t
join (t ∷ ts) = t ++ ("," ++ join ts)

module _ (pf : Platform) where
  -- `entries.sort(([a], [b]) => a.localeCompare(b))`, which is stable: an entry goes before those
  -- that stood behind it, and behind those that are smaller.
  unfoldable pub insert_entry : String × String → List (String × String) → List (String × String)
  insert_entry e [] = e ∷ []
  insert_entry e (d ∷ ds) = if pf.locale_le e.0 d.0 then e ∷ d ∷ ds else d ∷ insert_entry e ds

  unfoldable pub sort_entries : List (String × String) → List (String × String)
  unfolding insert_entry
  sort_entries [] = []
  sort_entries (e ∷ es) = insert_entry e (sort_entries es)

  abbrev pub show_entries : List (String × String) → List String
  show_entries [] = []
  show_entries ((k, v) ∷ es) = (pf.json_stringify (str k) ++ (":" ++ v)) ∷ show_entries es

  abbrev pub braced : List (String × String) → String
  braced es = "{" ++ (join (show_entries es) ++ "}")

-- The values are written before the sort, which compares keys alone, and not after it.
unfoldable mutual
  unfolding sort_entries join

  pub stable_stringify : Platform → Json → String
  stable_stringify pf (scalar s) = pf.json_stringify s
  stable_stringify pf (arr xs) = "[" ++ (join (stringify_items pf xs) ++ "]")
  stable_stringify pf (obj fs) = braced pf (sort_entries pf (stringify_fields pf fs))

  pub stringify_items : Platform → Items → List String
  stringify_items pf nil = []
  stringify_items pf (cons x xs) = stable_stringify pf x ∷ stringify_items pf xs

  pub stringify_fields : Platform → Fields → List (String × String)
  stringify_fields pf end = []
  stringify_fields pf (field k v fs) = (k, stable_stringify pf v) ∷ stringify_fields pf fs

unfoldable pub compute_request_hash : Platform → Request → String
unfolding stable_stringify
compute_request_hash pf r =
    pf.sha256
      (pf.to_upper_case r.method ++ ("\n" ++ (r.path ++ ("\n" ++ stable_stringify pf r.body))))
