-- ===== src/Base/Split.antt =====
-- Texts around a separator: `split` with one character, and joined texts whose parts lack it.
use Prim.Native.Char.{Char, code}
use Prim.Native.Nat.{ℕ}
use Prim.Native.String.{String, [] as empty, ◌∷◌ as char, ◌++◌ as append}
use text.Mathlib.TextLemmas.{nil-append, cons-append, head-eq_of_cons-eq, tail-eq_of_cons-eq}
use text.Mathlib.TextEquality.{Char-path}
use mathlib.Core.Path.{◌≡◌, refl, sym, ap, ap₂, ◌∙◌}
use mathlib.Core.Logic.{◌≢◌, inl, inr}
use mathlib.Core.Bool.{true, false≢true}
use mathlib.Core.Option.{some}
use mathlib.Core.List.{List, [], ◌∷◌}
use native.Mathlib.Omega.{arith}
use nest_base.Base.Tests.{◌==◌, Bool-cases, Option-cases, is_some, if◌then◌else◌}
use nest_base.Base.Text.{after_prefix, starts_with, replace_all}

-- No character of the text has this code.
abbrev pub Lacks : ℕ → String → Type 0
Lacks n empty = Unit
Lacks n (char c s) = (code c ≢ n) × Lacks n s

pub Lacks-append : (n : ℕ) (s t : String) → Lacks n s → Lacks n t → Lacks n (append s t)
Lacks-append n empty t hs ht = rw (nil-append t) ht
Lacks-append n (char c s) t hs ht = rw (cons-append c s t) (hs.0, Lacks-append n s t hs.1 ht)

pub replace_all-Lacks :
    (n : ℕ) (from : Char) (to s : String) → Lacks n to → Lacks n s → Lacks n (replace_all from to s)
unfolding replace_all
replace_all-Lacks n from to empty ht h = tt
replace_all-Lacks n from to (char c s) ht h = elim (Bool-cases (code c == code from)) [
  | inl e ↦
      rw e (Lacks-append n to (replace_all from to s) ht (replace_all-Lacks n from to s ht h.1))
  | inr e ↦ rw e (h.0, replace_all-Lacks n from to s ht h.1)
]

-- The text's first character in front of the first part.
abbrev onto : Char → List String → List String
onto c [] = char c empty ∷ []
onto c (p ∷ ps) = char c p ∷ ps

-- s.split(sep)
unfoldable pub split : (sep : Char) → String → List String
split sep empty = empty ∷ []
split sep (char c s) = if code c == code sep then empty ∷ split sep s else onto c (split sep s)

pub split-Lacks : (sep : Char) (p : String) → Lacks (code sep) p → split sep p ≡ p ∷ []
unfolding split
split-Lacks sep empty h = refl
split-Lacks sep (char c p) h = ground (arith, split-Lacks sep p h.1)

pub split-append :
    (sep : Char) (p s : String)
    → Lacks (code sep) p
    → split sep (append p (char sep s)) ≡ p ∷ split sep s
unfolding split
split-append sep empty s h = ap (split sep) (nil-append (char sep s)) ∙ ground arith
split-append sep (char c p) s h =
    ap (split sep) (cons-append c p (char sep s)) ∙ ground (arith, split-append sep p s h.1)

-- The separator tells where the first part ends.
pub append-inj :
    (sep : Char) (u v s t : String)
    → Lacks (code sep) u
    → Lacks (code sep) v
    → append u (char sep s) ≡ append v (char sep t)
    → (u ≡ v) × (s ≡ t)
append-inj sep empty empty s t hu hv e =
    (refl, tail-eq_of_cons-eq (sym (nil-append _) ∙ e ∙ nil-append _))
append-inj sep empty (char d v) s t hu hv e = absurd (
    hv.0
      (sym (ap code (head-eq_of_cons-eq (sym (nil-append _) ∙ e ∙ cons-append d v (char sep t))))))
append-inj sep (char c u) empty s t hu hv e =
    absurd
      (hu.0 (ap code (head-eq_of_cons-eq (sym (cons-append c u (char sep s)) ∙ e ∙ nil-append _))))
append-inj sep (char c u) (char d v) s t hu hv e =
    let same = sym (cons-append c u (char sep s)) ∙ e ∙ cons-append d v (char sep t) in
    let (parts, rests) = append-inj sep u v s t hu.1 hv.1 (tail-eq_of_cons-eq same) in
    (ap₂ (λ x p. char x p) (head-eq_of_cons-eq same) parts, rests)

-- A text that starts with a prefix is the prefix and what follows.
pub append-after_prefix : (p s rest : String) → after_prefix p s ≡ some rest → append p rest ≡ s
unfolding after_prefix
append-after_prefix empty s rest h = nil-append rest ∙ ground (arith, h)
append-after_prefix (char c p) empty rest h = cc
append-after_prefix (char c p) (char d s) rest h = elim (Bool-cases (code c == code d)) [
  | inl e ↦
      let later : after_prefix p s ≡ some rest = ground arith in
      cons-append c p rest
      ∙ ap₂ (λ x t. char x t) (Char-path c d (ground arith)) (append-after_prefix p s rest later)
  | inr e ↦ ground arith
]

pub after_prefix-append : (p s : String) → after_prefix p (append p s) ≡ some s
unfolding after_prefix
after_prefix-append empty s = ap some (nil-append s)
after_prefix-append (char c p) s =
    ap (after_prefix (char c p)) (cons-append c p s) ∙ ground (arith, after_prefix-append p s)

pub starts_with-append : (p s : String) → starts_with p (append p s) ≡ true
unfolding starts_with
starts_with-append p s = ap is_some (after_prefix-append p s)

pub append_assoc : (s t u : String) → append (append s t) u ≡ append s (append t u)
append_assoc empty t u = ap (λ x. append x u) (nil-append t) ∙ sym (nil-append (append t u))
append_assoc (char c s) t u =
    ap (λ x. append x u) (cons-append c s t)
    ∙ cons-append c (append s t) u
    ∙ ap (char c) (append_assoc s t u)
    ∙ sym (cons-append c s (append t u))

-- A text that starts with a part and its separator has that part first.
pub starts_with-part :
    (sep : Char) (u v t : String)
    → Lacks (code sep) u
    → Lacks (code sep) v
    → starts_with (append u (char sep empty)) (append v (char sep t)) ≡ true
    → u ≡ v
unfolding starts_with
starts_with-part sep u v t hu hv e =
    elim (Option-cases (after_prefix (append u (char sep empty)) (append v (char sep t)))) [
      | inl missing ↦ absurd (false≢true (sym (ap is_some missing) ∙ e))
      | inr (rest, there) ↦
          (append-inj sep u v rest t hu hv (
            ap (append u) (sym (cons-append sep empty rest ∙ ap (char sep) (nil-append rest)))
            ∙ sym (append_assoc u (char sep empty) rest)
            ∙ append-after_prefix (append u (char sep empty)) (append v (char sep t)) rest there)).0
    ]
