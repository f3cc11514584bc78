-- ===== src/Base/Decimal.antt =====
-- Whole numbers as text: what a template literal prints and what `parseInt(text, 10)` reads.
use Prim.Native.Char.{Char, code}
use Prim.Native.Nat.{ℕ, zero, suc, ◌+◌, ◌-◌, ◌*◌, ◌/◌, ◌%◌, ◌≤◌, ◌<◌}
use Prim.Native.String.{String, [] as empty, ◌∷◌ as char}
use mathlib.Core.Path.{subst, ◌≡◌, refl, sym, ap, ◌∙◌}
use mathlib.Core.Logic.{inl, inr}
use mathlib.Core.Bool.{Bool, true, false, false≢true, ◌&&◌, ◌||◌}
use mathlib.Core.Option.{Option, none, some}
use native.Mathlib.Omega.{arith}
use nest_base.Base.Tests.{◌==◌, ltb, leb, Bool-cases, if◌then◌else◌}
use nest_base.Base.Split.{Lacks}

unfoldable pub digit : ℕ → Char
digit zero = "0"
digit (suc zero) = "1"
digit (suc (suc zero)) = "2"
digit (suc (suc (suc zero))) = "3"
digit (suc (suc (suc (suc zero)))) = "4"
digit (suc (suc (suc (suc (suc zero))))) = "5"
digit (suc (suc (suc (suc (suc (suc zero)))))) = "6"
digit (suc (suc (suc (suc (suc (suc (suc zero))))))) = "7"
digit (suc (suc (suc (suc (suc (suc (suc (suc zero)))))))) = "8"
digit (suc (suc (suc (suc (suc (suc (suc (suc (suc n))))))))) = "9"

code-digit : (n : ℕ) → n < 10 → code (digit n) ≡ 48 + n
unfolding digit
code-digit zero h = refl
code-digit (suc zero) h = refl
code-digit (suc (suc zero)) h = refl
code-digit (suc (suc (suc zero))) h = refl
code-digit (suc (suc (suc (suc zero)))) h = refl
code-digit (suc (suc (suc (suc (suc zero))))) h = refl
code-digit (suc (suc (suc (suc (suc (suc zero)))))) h = refl
code-digit (suc (suc (suc (suc (suc (suc (suc zero))))))) h = refl
code-digit (suc (suc (suc (suc (suc (suc (suc (suc zero)))))))) h = refl
code-digit (suc (suc (suc (suc (suc (suc (suc (suc (suc zero))))))))) h = refl
code-digit (suc (suc (suc (suc (suc (suc (suc (suc (suc (suc n)))))))))) h = absurd (omega arith)

-- The digits of the number in front of the text, with as many rounds as it can need.
unfoldable pub print_rounds : (rounds n : ℕ) → String → String
unfolding digit
print_rounds zero n out = out
print_rounds (suc rounds) n out =
    let rest = print_rounds rounds (n / 10) (char (digit (n % 10)) out) in
    if ltb n 10 then char (digit n) out else rest

unfoldable pub print : ℕ → String
unfolding print_rounds
print n = print_rounds (suc n) n empty

abbrev pub is_digit : Char → Bool
is_digit c = leb 48 (code c) && leb (code c) 57

-- The longest run of digits, read onto what has been read.
unfoldable pub read_digits : ℕ → String → ℕ
read_digits n empty = n
read_digits n (char c s) = if is_digit c then read_digits (n * 10 + (code c - 48)) s else n

-- White space in the sense of ECMAScript
abbrev pub is_space : Char → Bool
is_space c =
    let n = code c in
    (leb 9 n && leb n 13)
    || n == 32
    || n == 160
    || n == 5760
    || (leb 8192 n && leb n 8202)
    || n == 8232
    || n == 8233
    || n == 8239
    || n == 8287
    || n == 12288
    || n == 65279

unfoldable pub skip_space : String → String
skip_space empty = empty
skip_space (char c s) = if is_space c then skip_space s else char c s

-- A whole number as the platform has it, minus zero included.
pub record Whole : Type 0 where
  pub negative : Bool
  pub size : ℕ

unfoldable pub unsigned : Bool → String → Option Whole
unfolding read_digits
unsigned negative empty = none
unsigned negative (char c s) =
    if is_digit c
    then some (record { negative = negative; size = read_digits 0 (char c s) })
    else none

unfoldable pub signed : String → Option Whole
unfolding unsigned
signed empty = none
signed (char c s) =
    if code c == b'-'
    then unsigned true s
    else if code c == b'+'
    then unsigned false s
    else unsigned false (char c s)

-- parseInt(text, 10), none for NaN
unfoldable pub parse_int : String → Option Whole
unfolding skip_space signed
parse_int s = signed (skip_space s)

-- `${n}`: minus zero prints like zero
unfoldable pub print_whole : Whole → String
unfolding print
print_whole n = if n.negative && ltb 0 n.size then char "-" (print n.size) else print n.size

-- Every character is a digit.
abbrev Digits : String → Type 0
Digits empty = Unit
Digits (char c s) = (is_digit c ≡ true) × Digits s

digit-is_digit : (n : ℕ) → n < 10 → is_digit (digit n) ≡ true
digit-is_digit n h = ground (arith, code-digit n h)

print_rounds-Digits : (r n : ℕ) (out : String) → Digits out → Digits (print_rounds r n out)
unfolding print_rounds
print_rounds-Digits zero n out h = h
print_rounds-Digits (suc r) n out h = elim (Bool-cases (ltb n 10)) [
  | inl small ↦ rw small (digit-is_digit n (ground arith), h)
  | inr large ↦ rw large (
      print_rounds-Digits r (n / 10) (char (digit (n % 10)) out)
        (digit-is_digit (n % 10) (omega arith), h))
]

read_digits-digit :
    (m d : ℕ) (out : String)
    → d < 10
    → read_digits m (char (digit d) out) ≡ read_digits (m * 10 + d) out
unfolding read_digits
read_digits-digit m d out h =
    rw (digit-is_digit d h) (rw (code-digit d h) (ap (λ k. read_digits k out) (omega arith)))

-- What was printed in front of a text reads as if the number had been read already.
read_digits-print_rounds :
    (r n : ℕ) (out : String) → n < r → read_digits 0 (print_rounds r n out) ≡ read_digits n out
unfolding print_rounds read_digits
read_digits-print_rounds zero n out h = absurd (omega arith)
read_digits-print_rounds (suc r) n out h = elim (Bool-cases (ltb n 10)) [
  | inl small ↦
      rw small
        (read_digits-digit 0 n out (ground arith) ∙ ap (λ k. read_digits k out) (omega arith))
  | inr large ↦
      let many : 10 ≤ n = ground arith in
      rw large (
        read_digits-print_rounds r (n / 10) (char (digit (n % 10)) out) (omega arith)
        ∙ read_digits-digit (n / 10) (n % 10) out (omega arith)
        ∙ ap (λ k. read_digits k out) (omega arith))
]

-- A text that starts with a digit is read from its start, unsigned.
parse_int-digit :
    (c : Char) (s : String)
    → is_digit c ≡ true
    → parse_int (char c s) ≡ some (record { negative = false; size = read_digits 0 (char c s) })
unfolding parse_int
parse_int-digit c s h = ground arith

size_of : Option Whole → ℕ
size_of none = 0
size_of (some n) = n.size

-- A text that is not empty.
abbrev pub Starts : String → Type 0
Starts empty = ⊥
Starts (char c s) = Unit

parse_int-Digits :
    (s : String)
    → Digits s
    → Starts s
    → parse_int s ≡ some (record { negative = false; size = read_digits 0 s })
parse_int-Digits empty h some_digit = absurd some_digit
parse_int-Digits (char c s) h some_digit = parse_int-digit c s h.0

print_rounds-Starts : (r n : ℕ) (out : String) → Starts out → Starts (print_rounds r n out)
unfolding print_rounds
print_rounds-Starts zero n out h = h
print_rounds-Starts (suc r) n out h = elim (Bool-cases (ltb n 10)) [
  | inl small ↦ rw small tt
  | inr large ↦ rw large (print_rounds-Starts r (n / 10) (char (digit (n % 10)) out) tt)
]

pub print-Starts : (n : ℕ) → Starts (print n)
unfolding print print_rounds
print-Starts n = elim (Bool-cases (ltb n 10)) [
  | inl small ↦ rw small tt
  | inr large ↦ rw large (print_rounds-Starts n (n / 10) (char (digit (n % 10)) empty) tt)
]

print-Digits : (n : ℕ) → Digits (print n)
unfolding print
print-Digits n = print_rounds-Digits (suc n) n empty tt

-- What a template literal prints of a whole number, `parseInt` reads back.
pub parse_int-print : (n : ℕ) → parse_int (print n) ≡ some (record { negative = false; size = n })
unfolding print read_digits
parse_int-print n =
    parse_int-Digits (print n) (print-Digits n) (print-Starts n)
    ∙ ap (λ k. some (record { negative = false; size = k }))
        (read_digits-print_rounds (suc n) n empty (omega arith))

Digits-Lacks : (k : ℕ) → (leb 48 k && leb k 57) ≡ false → (s : String) → Digits s → Lacks k s
Digits-Lacks k other empty h = tt
Digits-Lacks k other (char c s) h = (
  (λ e. false≢true (sym other ∙ subst (λ n. (leb 48 n && leb n 57) ≡ true) e h.0)),
  Digits-Lacks k other s h.1,
)

-- A printed number has no character but digits.
pub print-Lacks : (k : ℕ) → (leb 48 k && leb k 57) ≡ false → (n : ℕ) → Lacks k (print n)
print-Lacks k other n = Digits-Lacks k other (print n) (print-Digits n)

-- Two numbers never print alike.
pub print-inj : (m n : ℕ) → print m ≡ print n → m ≡ n
unfolding size_of
print-inj m n e =
    let read = sym (parse_int-print m) ∙ ap parse_int e ∙ parse_int-print n in ap size_of read
