-- ===== src/Encryption/Tests.antt =====
-- A field encrypted under one key and decrypted under the next, and the theorem at a concrete input.
use Prim.Native.String.{String}
use nest_base.Base.{
  ℕ, zero, suc, Option, none, some, [], ◌∷◌, ◌==◌, if◌then◌else◌, ◌≡◌, refl, arith,
}
use nest_base.Base.Text.{replace_all}
use nest_base.Encryption.Field.{Buffer, Platform, Crypted, encrypt, cut_at_colon, decrypt}
use nest_base.Encryption.Keys.{MultiKekConfig, multi_decrypt}
use nest_base.Encryption.Base64.{IsPadded}
use nest_base.Encryption.Rotation.{multi_decrypt-encrypt}

abbrev bytes : (count value : ℕ) → Buffer
bytes zero value = []
bytes (suc n) value = value ∷ bytes n value

-- One byte of ciphertext behind an IV and a tag.
abbrev sealed : Buffer
sealed =
    0 ∷ 0 ∷ 0 ∷ 0 ∷ 0 ∷ 0 ∷ 0 ∷ 0 ∷ 0 ∷ 0 ∷ 0 ∷ 0 ∷ 5 ∷ 5 ∷ 5 ∷ 5 ∷ 5 ∷ 5 ∷ 5 ∷ 5 ∷ 5 ∷ 5 ∷ 5 ∷ 5
    ∷ 5 ∷ 5 ∷ 5 ∷ 5 ∷ 7 ∷ []

-- The key of ones opens what it sealed.
abbrev opens : Buffer → Option String
opens [] = none
opens (byte ∷ kek) = if byte == 1 then some "x" else none

abbrev platform : Platform
platform = record {
  to_base64 = λ b. "AAAAAAAAAAAAAAAAAAAAAAAAAAAAAAAAAAAAAAA=";
  from_base64 = λ s. sealed;
  gcm_encrypt = λ kek iv plaintext. (bytes 16 5, 7 ∷ []);
  gcm_decrypt = λ kek iv tag ciphertext. opens kek;
}

abbrev rotated : MultiKekConfig
rotated = record { primary = bytes 32 2; legacy = bytes 32 3 ∷ bytes 32 1 ∷ [] }

padded : IsPadded sealed "AAAAAAAAAAAAAAAAAAAAAAAAAAAAAAAAAAAAAAA="
padded = (
  "AAAAAAAAAAAAAAAAAAAAAAAAAAAAAAAAAAAAAAA",
  1,
  refl,
  ground arith,
  ground arith,
  ground arith,
  omega arith,
  omega arith,
)

multi_decrypt-encrypt_example :
    (text : String) × (encrypt platform (bytes 32 1) (bytes 12 0) "x" ≡ Crypted.ok text)
    × (multi_decrypt platform rotated text ≡ Crypted.ok "x")
multi_decrypt-encrypt_example =
    multi_decrypt-encrypt platform (bytes 12 0) (bytes 32 1) "x" rotated
      (bytes 32 2 ∷ bytes 32 3 ∷ []) [] refl refl refl padded refl refl refl (refl, (refl, tt))

-- Base64 of 18 bytes, which is too short for an IV and a tag.
abbrev short : Platform
short = record {
  to_base64 = λ b. "";
  from_base64 = λ s. bytes 18 0;
  gcm_encrypt = λ kek iv plaintext. ([], []);
  gcm_decrypt = λ kek iv tag ciphertext. none;
}

-- It is tried against every key, and the error is that none could decrypt it.
short_is_tried :
    multi_decrypt short rotated "v1:AAAAAAAAAAAAAAAAAAAAAAAA"
    ≡ Crypted.no_kek "no KEK in the configured chain could decrypt the ciphertext"
unfolding multi_decrypt cut_at_colon replace_all decrypt
short_is_tried = refl
