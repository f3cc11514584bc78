-- ===== src/Encryption/Base64.antt =====
-- The base64url of field encryption reads what it wrote.
use Prim.Native.Char.{Char, code}
use Prim.Native.String.{String, [] as empty, ◌∷◌ as char, ◌++◌ as append}
use Prim.Native.Nat.{◌%◌, ◌*◌, ◌/◌}
use mathlib.Core.Path.{ap₂}
use text.Mathlib.TextLemmas.{nil-append, cons-append}
use text.Mathlib.TextEquality.{Char-path}
use nest_base.Base.{
  ℕ, zero, suc, ◌+◌, ◌-◌, ◌≤◌, ◌<◌, false, length, ◌==◌, if◌then◌else◌, ◌≡◌, ◌≢◌, refl, sym, ap,
  ◌∙◌, Bool-cases, inl, inr, arith,
}
use nest_base.Base.Text.{replace_all}
use nest_base.Base.Split.{Lacks, replace_all-Lacks}
use nest_base.Encryption.Field.{
  Buffer, Platform, text_length, strip_padding, equal_signs, base64_url_encode, restored, pad,
  base64_url_decode,
}

-- What is documented of the base64 of a buffer: a text without `=`, `-` and `_`, filled up with at
-- most two `=` to four characters for each three bytes.
abbrev pub IsPadded : Buffer → String → Type 0
IsPadded b t =
    (body : String) × (pads : ℕ) × (t ≡ append body (equal_signs pads))
    × Lacks b'=' body
    × Lacks b'-' body
    × Lacks b'_' body
    × (pads ≤ 2)
    × (text_length body + pads ≡ 4 * ((length b + 2) / 3))

-- One character in place of another.
abbrev swap : (from to c : Char) → Char
swap from to c = if code c == code from then to else c

replace_all-swap :
    (from to c : Char) (s : String)
    → replace_all from (char to empty) (char c s)
      ≡ char (swap from to c) (replace_all from (char to empty) s)
unfolding replace_all
replace_all-swap from to c s = elim (Bool-cases (code c == code from)) [
  | inl e ↦
      rw e (cons-append to empty (replace_all from (char to empty) s) ∙ ap (char to) (nil-append _))
  | inr e ↦ rw e refl
]

replace_all-append :
    (from to : Char) (s t : String)
    → replace_all from (char to empty) (append s t)
      ≡ append (replace_all from (char to empty) s) (replace_all from (char to empty) t)
unfolding replace_all
replace_all-append from to empty t =
    ap (replace_all from (char to empty)) (nil-append t)
    ∙ sym (nil-append (replace_all from (char to empty) t))
replace_all-append from to (char c s) t =
    ap (replace_all from (char to empty)) (cons-append c s t)
    ∙ replace_all-swap from to c (append s t)
    ∙ ap (char (swap from to c)) (replace_all-append from to s t)
    ∙ sym (cons-append (swap from to c) _ _)
    ∙ ap (λ x. append x (replace_all from (char to empty) t)) (sym (replace_all-swap from to c s))

text_length-replace_all :
    (from to : Char) (s : String) → text_length (replace_all from (char to empty) s) ≡ text_length s
unfolding replace_all
text_length-replace_all from to empty = refl
text_length-replace_all from to (char c s) =
    ap text_length (replace_all-swap from to c s) ∙ ap suc (text_length-replace_all from to s)

replace_all-equal_signs :
    (from to : Char) (n : ℕ)
    → code from ≢ b'='
    → replace_all from (char to empty) (equal_signs n) ≡ equal_signs n
unfolding replace_all
replace_all-equal_signs from to zero other = refl
replace_all-equal_signs from to (suc n) other =
    let differ : (b'=' == code from) ≡ false = ground arith in
    rw differ (ap (char "=") (replace_all-equal_signs from to n other))

abbrev url : String → String
url s = replace_all "/" "_" (replace_all "+" "-" s)

-- No other character is changed to one that is changed back.
swap_back :
    (c : Char)
    → code c ≢ b'-'
    → code c ≢ b'_'
    → swap "_" "/" (swap "-" "+" (swap "/" "_" (swap "+" "-" c))) ≡ c
swap_back c dash line = elim (Bool-cases (code c == b'+')) [
  | inl plus ↦ rw plus (Char-path "+" c (ground arith))
  | inr other ↦ rw other (elim (Bool-cases (code c == b'/')) [
    | inl slash ↦ rw slash (Char-path "/" c (ground arith))
    | inr neither ↦ rw neither (
        let no_dash : (code c == b'-') ≡ false = ground arith in
        let no_line : (code c == b'_') ≡ false = ground arith in rw no_dash (rw no_line refl))
  ])
]

restored-url : (s : String) → Lacks b'-' s → Lacks b'_' s → restored (url s) ≡ s
unfolding restored replace_all
restored-url empty hd hl = refl
restored-url (char c s) hd hl =
    let once = swap "+" "-" c in
    let twice = swap "/" "_" once in
    ap restored (
      ap (replace_all "/" "_") (replace_all-swap "+" "-" c s)
      ∙ replace_all-swap "/" "_" once (replace_all "+" "-" s))
    ∙ ap (replace_all "_" "/") (replace_all-swap "-" "+" twice (url s))
    ∙ replace_all-swap "_" "/" (swap "-" "+" twice) (replace_all "-" "+" (url s))
    ∙ ap₂ (λ x t. char x t) (swap_back c hd.0 hl.0) (restored-url s hd.1 hl.1)

strip_padding-equal_signs : (n : ℕ) → strip_padding (equal_signs n) ≡ empty
unfolding strip_padding
strip_padding-equal_signs zero = refl
strip_padding-equal_signs (suc n) = rw (strip_padding-equal_signs n) refl

strip_padding-append :
    (s : String) (n : ℕ) → Lacks b'=' s → strip_padding (append s (equal_signs n)) ≡ s
unfolding strip_padding
strip_padding-append empty n h =
    ap strip_padding (nil-append (equal_signs n)) ∙ strip_padding-equal_signs n
strip_padding-append (char c s) n h =
    let other : (code c == b'=') ≡ false = ground arith in
    ap strip_padding (cons-append c s (equal_signs n))
    ∙ rw other (ap (char c) (strip_padding-append s n h.1))

pad-equal_signs :
    (s : String) (pads q : ℕ) → pads ≤ 2 → text_length s + pads ≡ 4 * q → pad s ≡ equal_signs pads
unfolding pad
pad-equal_signs s pads q few e = elim (Bool-cases (text_length s % 4 == 0)) [
  | inl even ↦ let nothing : 0 ≡ pads = ground (arith, few, e) in rw even (ap equal_signs nothing)
  | inr odd ↦
      let missing : 4 - text_length s % 4 ≡ pads = ground (arith, few, e) in
      rw odd (ap equal_signs missing)
]

url-append : (s : String) (n : ℕ) → url (append s (equal_signs n)) ≡ append (url s) (equal_signs n)
url-append s n =
    ap (replace_all "/" "_") (
      replace_all-append "+" "-" s (equal_signs n)
      ∙ ap (append (replace_all "+" "-" s)) (replace_all-equal_signs "+" "-" n (ground arith)))
    ∙ replace_all-append "/" "_" (replace_all "+" "-" s) (equal_signs n)
    ∙ ap (append (url s)) (replace_all-equal_signs "/" "_" n (ground arith))

-- Without its padding the text is the changed body.
encoded :
    (p : Platform) (b : Buffer) (h : IsPadded b (p.to_base64 b)) → base64_url_encode p b ≡ url h.0
unfolding base64_url_encode
encoded p b (body, pads, e, signs, dashes, lines, few, size) =
    ap (λ t. strip_padding (url t)) e
    ∙ ap strip_padding (url-append body pads)
    ∙ strip_padding-append (url body) pads (
        replace_all-Lacks b'=' "/" "_" _ (ground arith, tt)
          (replace_all-Lacks b'=' "+" "-" body (ground arith, tt) signs))

pub base64_url_decode-base64_url_encode :
    (p : Platform) (b : Buffer)
    → IsPadded b (p.to_base64 b)
    → p.from_base64 (p.to_base64 b) ≡ b
    → base64_url_decode p (base64_url_encode p b) ≡ b
unfolding base64_url_decode
base64_url_decode-base64_url_encode p b h reads =
    let (body, pads, e, signs, dashes, lines, few, size) = h in
    ap (λ t. p.from_base64 (append (restored t) (pad (restored t)))) (encoded p b h)
    ∙ ap (λ t. p.from_base64 (append t (pad t))) (restored-url body dashes lines)
    ∙ ap (λ t. p.from_base64 (append body t)) (pad-equal_signs body pads _ few size)
    ∙ ap p.from_base64 (sym e)
    ∙ reads

-- An IV and a tag make the text longer than the check of its form wants.
pub base64_url_encode-long :
    (p : Platform) (b : Buffer)
    → IsPadded b (p.to_base64 b)
    → 28 ≤ length b
    → 20 < text_length (base64_url_encode p b)
base64_url_encode-long p b h long =
    let (body, pads, e, signs, dashes, lines, few, size) = h in
    let same =
      ap text_length (encoded p b h)
      ∙ text_length-replace_all "/" "_" (replace_all "+" "-" body)
      ∙ text_length-replace_all "+" "-" body in
    omega (arith, same, few, size, long)
