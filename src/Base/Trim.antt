-- ===== src/Base/Trim.antt =====
-- `trim` of a text, and texts that it leaves as they are.
use Prim.Native.Char.{Char}
use Prim.Native.String.{String, [] as empty, ◌∷◌ as char, ◌++◌ as append}
use text.Mathlib.TextLemmas.{nil-append, cons-append}
use mathlib.Core.Path.{◌≡◌, refl, subst}
use mathlib.Core.Logic.{inl, inr}
use mathlib.Core.Bool.{false, ◌&&◌}
use native.Mathlib.Omega.{arith}
use text.Mathlib.TextEquality.{eq_iff}
use text.Mathlib.Text.{◌==◌ as str_eq}
use nest_base.Base.Tests.{Bool-cases, if◌then◌else◌}
use nest_base.Base.Decimal.{Starts, is_space, skip_space}

unfoldable pub trim_end : String → String
trim_end empty = empty
trim_end (char c s) =
    let rest = trim_end s in if is_space c && str_eq rest "" then empty else char c rest

unfoldable pub trim : String → String
unfolding trim_end skip_space
trim s = trim_end (skip_space s)

pub Starts-filled : (s : String) → Starts s → str_eq s "" ≡ false
Starts-filled s h = elim (Bool-cases (str_eq s "")) [
  | inl e ↦ absurd (subst Starts ((eq_iff s "").0 e) h)
  | inr e ↦ e
]

append-filled : (c : Char) (s : String) → str_eq (append s (char c empty)) "" ≡ false
append-filled c empty = Starts-filled _ (rw (nil-append (char c empty)) tt)
append-filled c (char d s) = Starts-filled _ (rw (cons-append d s (char c empty)) tt)

trim_end-append :
    (c : Char) (s : String)
    → is_space c ≡ false
    → trim_end (append s (char c empty)) ≡ append s (char c empty)
unfolding trim_end
trim_end-append c empty h = rw (nil-append (char c empty)) (ground (arith, h))
trim_end-append c (char d s) h =
    rw (cons-append d s (char c empty))
      (rw (trim_end-append c s h) (ground (arith, append-filled c s)))

-- A text between two characters that are no space.
pub trim-between :
    (b c : Char) (s : String)
    → is_space b ≡ false
    → is_space c ≡ false
    → trim (char b (append s (char c empty))) ≡ char b (append s (char c empty))
unfolding trim trim_end skip_space
trim-between b c s hb hc = rw hb (rw (trim_end-append c s hc) (ground (arith, hb)))

pub trim-space : (s : String) → trim (char " " s) ≡ trim s
unfolding trim skip_space
trim-space s = refl
