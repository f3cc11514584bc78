-- ===== src/Encryption/Rotation.antt =====
-- A field that was encrypted is decrypted, also after its key was demoted to the legacy ones.
use Prim.Native.String.{String, ◌∷◌ as char, ◌++◌ as append}
use text.Mathlib.TextLemmas.{nil-append, cons-append}
use nest_base.Base.{
  ℕ, zero, suc, ◌≤◌, true, false, none, some, List, [], ◌∷◌, ◌++◌, All, take, length, length-append,
  ltb, ◌==◌, ◌≡◌, refl, sym, ap, ◌∙◌, append_assoc, Bool-cases, inl, inr, arith,
}
use nest_base.Encryption.Field.{
  Buffer, Platform, Crypted, drop, cut_at_colon, base64_url_encode, with_key, encrypt, opened,
  decrypt_payload, decrypt_parts, decrypt,
}
use nest_base.Encryption.Keys.{MultiKekConfig, is_well_formed, or_next, try_all, multi_decrypt}
use nest_base.Encryption.Base64.{
  IsPadded, base64_url_decode-base64_url_encode, base64_url_encode-long,
}

take-append : (n : ℕ) (a b : Buffer) → length a ≡ n → take n (a ++ b) ≡ a
take-append zero [] b e = refl
take-append zero (x ∷ a) b e = absurd (omega (arith, e))
take-append (suc n) [] b e = absurd (omega (arith, e))
take-append (suc n) (x ∷ a) b e = ap (λ xs. x ∷ xs) (take-append n a b (omega (arith, e)))

drop-append : (n : ℕ) (a b : Buffer) → length a ≡ n → drop n (a ++ b) ≡ b
drop-append zero [] b e = refl
drop-append zero (x ∷ a) b e = absurd (omega (arith, e))
drop-append (suc n) [] b e = absurd (omega (arith, e))
drop-append (suc n) (x ∷ a) b e = drop-append n a b (omega (arith, e))

cut_at_colon-append : (rest : String) → cut_at_colon (append "v1:" rest) ≡ some ("v1", rest)
unfolding cut_at_colon
cut_at_colon-append rest =
    ap cut_at_colon (
      cons-append "v" "1:" rest
      ∙ ap (char "v") (
          cons-append "1" ":" rest
          ∙ ap (char "1") (cons-append ":" "" rest ∙ ap (char ":") (nil-append rest))))
    ∙ refl

module _ (p : Platform) (iv : Buffer) (plaintext : String) (old : Buffer) where
  abbrev pub tag_of : Buffer
  tag_of = (p.gcm_encrypt old iv plaintext).0

  abbrev pub ciphertext_of : Buffer
  ciphertext_of = (p.gcm_encrypt old iv plaintext).1

  abbrev pub payload_of : Buffer
  payload_of = iv ++ (tag_of ++ ciphertext_of)

  abbrev text_of : String
  text_of = append "v1:" (base64_url_encode p payload_of)

  module _ (iv_size : length iv ≡ 12) (tag_size : length tag_of ≡ 16)
      (padded : IsPadded payload_of (p.to_base64 payload_of))
      (reads : p.from_base64 (p.to_base64 payload_of) ≡ payload_of) where
    payload_long : 28 ≤ length payload_of
    payload_long = omega (
      arith,
      iv_size,
      tag_size,
      length-append iv (tag_of ++ ciphertext_of),
      length-append tag_of ciphertext_of,
    )

    all_dropped : drop 28 payload_of ≡ ciphertext_of
    all_dropped =
        ap (drop 28) (sym (append_assoc iv tag_of ciphertext_of))
        ∙ drop-append 28 (iv ++ tag_of) ciphertext_of
            (omega (arith, iv_size, tag_size, length-append iv tag_of))

    tag_taken : take 16 (drop 12 payload_of) ≡ tag_of
    tag_taken =
        ap (take 16) (drop-append 12 iv (tag_of ++ ciphertext_of) iv_size)
        ∙ take-append 16 tag_of ciphertext_of tag_size

    decrypt_payload-payload_of :
        (kek : Buffer)
        → decrypt_payload p kek payload_of
          ≡ with_key kek (opened (p.gcm_decrypt kek iv tag_of ciphertext_of))
    unfolding decrypt_payload
    decrypt_payload-payload_of kek =
        let long : ltb (length payload_of) 28 ≡ false = ground (arith, payload_long) in
        rw long (
          rw (take-append 12 iv (tag_of ++ ciphertext_of) iv_size)
            (rw tag_taken (rw all_dropped refl)))

    decrypt-text_of :
        (kek : Buffer)
        → decrypt p kek text_of ≡ with_key kek (opened (p.gcm_decrypt kek iv tag_of ciphertext_of))
    unfolding decrypt decrypt_parts
    decrypt-text_of kek =
        ap (decrypt_parts p kek) (cut_at_colon-append (base64_url_encode p payload_of))
        ∙ ap (decrypt_payload p kek) (base64_url_decode-base64_url_encode p payload_of padded reads)
        ∙ decrypt_payload-payload_of kek

    -- A key that does not fit is passed over.
    passed_over :
        (kek : Buffer) (next : Crypted)
        → p.gcm_decrypt kek iv tag_of ciphertext_of ≡ none
        → or_next (decrypt p kek text_of) next ≡ next
    unfolding or_next with_key opened
    passed_over kek next wrong =
        ap (λ c. or_next c next) (decrypt-text_of kek)
        ∙ ap (λ o. or_next (with_key kek (opened o)) next) wrong
        ∙ elim (Bool-cases (length kek == 32)) [
          | inl fits ↦ rw fits refl
          | inr no_fit ↦ rw no_fit refl
        ]

    try_all-found :
        (before after : List Buffer)
        → length old ≡ 32
        → p.gcm_decrypt old iv tag_of ciphertext_of ≡ some plaintext
        → All (λ k. p.gcm_decrypt k iv tag_of ciphertext_of ≡ none) before
        → try_all p (before ++ (old ∷ after)) text_of ≡ Crypted.ok plaintext
    unfolding try_all or_next with_key opened
    try_all-found [] after size fits wrong =
        let right : (length old == 32) ≡ true = ground (arith, size) in
        ap (λ c. or_next c (try_all p after text_of)) (decrypt-text_of old)
        ∙ rw right (rw fits refl)
    try_all-found (k ∷ before) after size fits wrong =
        passed_over k (try_all p (before ++ (old ∷ after)) text_of) wrong.0
        ∙ try_all-found before after size fits wrong.1

    text_of-well_formed : is_well_formed (cut_at_colon text_of) ≡ true
    unfolding is_well_formed
    text_of-well_formed =
        ap is_well_formed (cut_at_colon-append (base64_url_encode p payload_of))
        ∙ ground (arith, base64_url_encode-long p payload_of padded payload_long)

    encrypt-text_of : length old ≡ 32 → encrypt p old iv plaintext ≡ Crypted.ok text_of
    unfolding encrypt with_key
    encrypt-text_of size =
        let right : (length old == 32) ≡ true = ground (arith, size) in rw right refl

-- What was encrypted under a key of 32 bytes is decrypted again by every configuration whose keys, the
-- primary first and then the legacy ones, have this key behind ones that the tag does not fit: by the
-- one it was encrypted with, and by those of later rotations that still know the key. The IV has 12
-- bytes and the tag 16; of AES-GCM it is asked that the key opens what it sealed, and of base64 that
-- the payload is read back and padded as documented.
pub multi_decrypt-encrypt :
    (p : Platform) (iv old : Buffer) (plaintext : String) (config : MultiKekConfig)
    (before after : List Buffer)
    → length iv ≡ 12
    → length old ≡ 32
    → length (tag_of p iv plaintext old) ≡ 16
    → IsPadded (payload_of p iv plaintext old) (p.to_base64 (payload_of p iv plaintext old))
    → p.from_base64 (p.to_base64 (payload_of p iv plaintext old)) ≡ payload_of p iv plaintext old
    → p.gcm_decrypt old iv (tag_of p iv plaintext old) (ciphertext_of p iv plaintext old)
      ≡ some plaintext
    → config.primary ∷ config.legacy ≡ before ++ (old ∷ after)
    → All
        (λ k.
          p.gcm_decrypt k iv (tag_of p iv plaintext old) (ciphertext_of p iv plaintext old) ≡ none)
        before
    → (text : String) × (encrypt p old iv plaintext ≡ Crypted.ok text)
      × (multi_decrypt p config text ≡ Crypted.ok plaintext)
unfolding multi_decrypt try_all
multi_decrypt-encrypt p iv old plaintext config before after iv_size size tag_size padded reads fits
      chain wrong =
    let text = append "v1:" (base64_url_encode p (payload_of p iv plaintext old)) in
    (
      text,
      encrypt-text_of p iv plaintext old iv_size tag_size padded reads size,
      rw (text_of-well_formed p iv plaintext old iv_size tag_size padded reads) (
          ap (λ keks. try_all p keks text) chain
          ∙ try_all-found p iv plaintext old iv_size tag_size padded reads before after size fits
              wrong),
    )
