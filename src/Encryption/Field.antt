-- ===== src/Encryption/Field.antt =====
-- `FieldEncryptionService` of core/encryption/field-encryption.service.ts. A buffer is a list of
-- bytes; AES-GCM and the base64 of `Buffer` are parameters, and so is the random IV of a call.
use Prim.Native.Char.{Char, code}
use Prim.Native.String.{String, [] as empty, ◌∷◌ as char, ◌++◌ as append}
use Prim.Native.Nat.{◌%◌}
use nest_base.Base.{
  ℕ, zero, suc, ◌+◌, ◌-◌, ◌&&◌, Option, none, some, List, [], ◌∷◌, ◌++◌, length, take, ltb, ◌==◌,
  str_eq, if◌then◌else◌,
}
use nest_base.Base.Text.{replace_all}
use nest_base.Base.Decimal.{print}

abbrev pub Buffer : Type 0
Buffer = List ℕ

pub record Platform : Type 0 where
  pub to_base64 : Buffer → String
  pub from_base64 : String → Buffer
  -- The tag and the ciphertext
  pub gcm_encrypt : (key iv : Buffer) → String → Buffer × Buffer
  -- None where the tag does not fit
  pub gcm_decrypt : (key iv tag ciphertext : Buffer) → Option String

-- A text, an error, or one of the two errors of multi-kek.service.ts.
pub data Crypted : Type 0 where
  ok : String → Crypted
  error : String → Crypted
  malformed : String → Crypted
  no_kek : String → Crypted

abbrev pub iv_bytes : ℕ
iv_bytes = 12

abbrev pub tag_bytes : ℕ
tag_bytes = 16

abbrev pub kek_bytes : ℕ
kek_bytes = 32

abbrev pub text_length : String → ℕ
text_length empty = 0
text_length (char c s) = suc (text_length s)

abbrev pub drop : ℕ → Buffer → Buffer
drop zero b = b
drop (suc n) [] = []
drop (suc n) (x ∷ b) = drop n b

-- text.replace(/=+$/, "")
unfoldable pub strip_padding : String → String
strip_padding empty = empty
strip_padding (char c s) =
    let rest = strip_padding s in if code c == b'=' && str_eq rest "" then empty else char c rest

abbrev pub equal_signs : ℕ → String
equal_signs zero = empty
equal_signs (suc n) = char "=" (equal_signs n)

-- The text before the first colon, and what follows it.
unfoldable pub cut_at_colon : String → Option (String × String)
cut_at_colon empty = none
cut_at_colon (char c s) = if code c == b':' then some (empty, s) else before c (cut_at_colon s)
  where
    before : Char → Option (String × String) → Option (String × String)
    before c none = none
    before c (some (version, rest)) = some (char c version, rest)

unfoldable pub base64_url_encode : Platform → Buffer → String
unfolding strip_padding replace_all
base64_url_encode p b = strip_padding (replace_all "/" "_" (replace_all "+" "-" (p.to_base64 b)))

unfoldable pub restored : String → String
unfolding replace_all
restored value = replace_all "_" "/" (replace_all "-" "+" value)

unfoldable pub pad : String → String
pad s = if text_length s % 4 == 0 then "" else equal_signs (4 - text_length s % 4)

unfoldable pub base64_url_decode : Platform → String → Buffer
unfolding restored pad
base64_url_decode p value = p.from_base64 (append (restored value) (pad (restored value)))

-- assertKey, with what needs the key
unfoldable pub with_key : (kek : Buffer) → Crypted → Crypted
with_key kek result =
    if length kek == kek_bytes
    then result
    else Crypted.error
        (append "KEK must be exactly 32 bytes (received " (append (print (length kek)) ")"))

unfoldable pub encrypt : Platform → (kek iv : Buffer) → (plaintext : String) → Crypted
unfolding with_key base64_url_encode
encrypt p kek iv plaintext =
    let (tag, ciphertext) = p.gcm_encrypt kek iv plaintext in
    with_key kek (Crypted.ok (append "v1:" (base64_url_encode p (iv ++ (tag ++ ciphertext)))))

unfoldable pub opened : Option String → Crypted
opened none = Crypted.error "Unsupported state or unable to authenticate data"
opened (some plaintext) = Crypted.ok plaintext

unfoldable pub decrypt_payload : Platform → (kek payload : Buffer) → Crypted
unfolding with_key opened
decrypt_payload p kek payload =
    if ltb (length payload) (iv_bytes + tag_bytes)
    then Crypted.error "field-encryption: ciphertext too short"
    else with_key kek (
        opened (
          p.gcm_decrypt kek (take iv_bytes payload) (take tag_bytes (drop iv_bytes payload))
            (drop (iv_bytes + tag_bytes) payload)))

unfoldable pub decrypt_parts : Platform → (kek : Buffer) → Option (String × String) → Crypted
unfolding decrypt_payload base64_url_decode
decrypt_parts p kek none = Crypted.error "field-encryption: malformed ciphertext"
decrypt_parts p kek (some (version, rest)) =
    if str_eq version "v1"
    then decrypt_payload p kek (base64_url_decode p rest)
    else Crypted.error (append "field-encryption: unsupported version \"" (append version "\""))

unfoldable pub decrypt : Platform → (kek : Buffer) → String → Crypted
unfolding decrypt_parts cut_at_colon
decrypt p kek input = decrypt_parts p kek (cut_at_colon input)
