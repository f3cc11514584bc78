-- ===== src/Encryption/Keys.antt =====
-- `MultiKekFieldEncryption` of core/encryption/multi-kek.service.ts.
use Prim.Native.String.{String}
use nest_base.Base.{
  Bool, false, ◌&&◌, Option, none, some, List, [], ◌∷◌, ltb, str_eq, if◌then◌else◌,
}
use nest_base.Encryption.Field.{
  Buffer, Platform, Crypted, text_length, cut_at_colon, encrypt, decrypt,
}

pub record MultiKekConfig : Type 0 where
  pub primary : Buffer
  pub legacy : List Buffer

unfoldable pub is_well_formed : Option (String × String) → Bool
is_well_formed none = false
is_well_formed (some (version, payload)) = str_eq version "v1" && ltb 20 (text_length payload)

-- What a `try` gives: its value or an error that is thrown on, or what follows it.
unfoldable pub or_next : Crypted → Crypted → Crypted
or_next (Crypted.ok plaintext) next = Crypted.ok plaintext
or_next (Crypted.malformed message) next = Crypted.malformed message
or_next (Crypted.error message) next = next
or_next (Crypted.no_kek message) next = next

unfoldable pub try_all : Platform → List Buffer → String → Crypted
unfolding or_next
try_all p [] ciphertext =
    Crypted.no_kek "no KEK in the configured chain could decrypt the ciphertext"
try_all p (kek ∷ keks) ciphertext = or_next (decrypt p kek ciphertext) (try_all p keks ciphertext)

unfoldable pub multi_encrypt : Platform → MultiKekConfig → (iv : Buffer) → String → Crypted
multi_encrypt p config iv plaintext = encrypt p config.primary iv plaintext

unfoldable pub multi_decrypt : Platform → MultiKekConfig → String → Crypted
unfolding try_all is_well_formed
multi_decrypt p config ciphertext =
    if is_well_formed (cut_at_colon ciphertext)
    then or_next (decrypt p config.primary ciphertext) (try_all p config.legacy ciphertext)
    else Crypted.malformed "multi-kek: ciphertext does not match expected v1:<base64url> format"
