-- ===== src/Base/Table.antt =====
-- Rows of one database table. A statement runs as one step: `update_many` is
-- `UPDATE … SET … WHERE …` (Prisma's `updateMany`), and its row count is `any` of the test.
use nest_base.Base.Tests.{if◌then◌else◌}
use nest_base.Base.Lists.{All, any, find?}
use mathlib.Core.Path.{◌≡◌, refl}
use mathlib.Core.Bool.{Bool, true, false}
use mathlib.Core.Option.{some}
use mathlib.Core.List.{List, [], ◌∷◌, map}
use native.Mathlib.Omega.{arith}

module _ {ℓ} {R : Type ℓ} (p : R → Bool) (f : R → R) where
  abbrev pub set_row : R → R
  set_row r = if p r then f r else r

  abbrev pub update_many : List R → List R
  update_many rows = map set_row rows

  -- An update keeps what each written row keeps.
  pub All-update_many {κ} :
      (P : R → Type κ)
      → ((r : R) → p r ≡ true → P r → P (f r))
      → (rows : List R) → All P rows
      → All P (update_many rows)
  All-update_many P keep [] h = tt
  All-update_many P keep (r ∷ rows) h = ground (arith, keep r, All-update_many P keep rows)

  -- After the update no row passes a test that the write makes false.
  pub any-update_many :
      (q : R → Bool)
      → ((r : R) → p r ≡ true → q (f r) ≡ false)
      → ((r : R) → p r ≡ false → q r ≡ false)
      → (rows : List R) → any q (update_many rows) ≡ false
  any-update_many q hit miss [] = refl
  any-update_many q hit miss (r ∷ rows) =
      ground (arith, hit r, miss r, any-update_many q hit miss rows)

module _ {ℓ} {R : Type ℓ} (p : R → Bool) where
  -- What a search finds passes its test.
  pub find?-test : (r : R) (rows : List R) → find? p rows ≡ some r → p r ≡ true
  find?-test r [] e = cc
  find?-test r (q ∷ rows) e = ground (arith, find?-test r rows)

  -- The first row of an update's test is found again, written.
  pub find?-update_many :
      (f : R → R)
      → ((r : R) → p r ≡ true → p (f r) ≡ true)
      → (r : R) (rows : List R) → find? p rows ≡ some r
      → find? p (update_many p f rows) ≡ some (f r)
  find?-update_many f keep r [] e = cc
  find?-update_many f keep r (q ∷ rows) e = ground (arith, keep q, find?-update_many f keep r rows)
