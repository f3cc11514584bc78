-- ===== src/Base/Dict.antt =====
-- A JavaScript `Map` with string keys, as an association list in insertion order.
use nest_base.Base.Tests.{if◌then◌else◌, is_some}
use nest_base.Base.Lists.{All}
use Prim.Native.String.{String}
use mathlib.Core.Path.{◌≡◌, refl}
use mathlib.Core.Bool.{Bool}
use mathlib.Core.Option.{Option, none, some}
use mathlib.Core.List.{List, [], ◌∷◌}
use native.Mathlib.Omega.{arith}
use text.Mathlib.Text.{◌==◌}
use text.Mathlib.TextEquality.{eq_iff}

abbrev pub Dict {ℓ} : Type ℓ → Type ℓ
Dict V = List (String × V)

module _ {ℓ} {V : Type ℓ} where
  -- map.get(k)
  unfoldable pub get : String → Dict V → Option V
  get k [] = none
  get k ((j, v) ∷ m) = if j == k then some v else get k m

  -- map.has(k)
  abbrev pub has : String → Dict V → Bool
  has k m = is_some (get k m)

  -- map.set(k, v): an existing key keeps its place
  unfoldable pub put : String → V → Dict V → Dict V
  put k v [] = (k, v) ∷ []
  put k v ((j, w) ∷ m) = if j == k then (k, v) ∷ m else (j, w) ∷ put k v m

  -- map.delete(k)
  unfoldable pub remove : String → Dict V → Dict V
  remove k [] = []
  remove k ((j, w) ∷ m) = if j == k then remove k m else (j, w) ∷ remove k m

  pub get-put :
      (k j : String) (v : V) (m : Dict V) → get j (put k v m) ≡ (if k == j then some v else get j m)
  unfolding get put
  get-put k j v [] = refl
  get-put k j v ((i, w) ∷ m) = ground (arith, eq_iff k j, eq_iff i k, eq_iff i j, get-put k j v m)

  pub get-remove :
      (k j : String) (m : Dict V) → get j (remove k m) ≡ (if k == j then none else get j m)
  unfolding get remove
  get-remove k j [] = ground arith
  get-remove k j ((i, w) ∷ m) = ground (arith, eq_iff k j, eq_iff i k, eq_iff i j, get-remove k j m)

module _ {ℓ κ} {V : Type ℓ} (P : V → Type κ) where
  -- A property of every entry's value.
  abbrev pub Values : Dict V → Type κ
  Values m = All (λ e. P e.1) m

  pub Values-put : (k : String) (v : V) (m : Dict V) → P v → Values m → Values (put k v m)
  unfolding put
  Values-put k v [] h hm = (h, tt)
  Values-put k v ((j, w) ∷ m) h hm = ground (arith, Values-put k v m)

  pub Values-remove : (k : String) (m : Dict V) → Values m → Values (remove k m)
  unfolding remove
  Values-remove k [] hm = tt
  Values-remove k ((j, w) ∷ m) hm = ground (arith, Values-remove k m)

  pub Values-get : (k : String) (v : V) (m : Dict V) → Values m → get k m ≡ some v → P v
  unfolding get
  Values-get k v [] hm e = cc
  Values-get k v ((j, w) ∷ m) hm e = ground (arith, Values-get k v m)

pub ruleset dict_laws = (get-put, get-remove)
