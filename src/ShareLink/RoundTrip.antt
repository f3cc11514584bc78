-- ===== src/ShareLink/RoundTrip.antt =====
-- What `verifyShareLink` makes of the tokens of `signShareLink`, and which tokens it lets through.
use Prim.Native.Char.{Char, code}
use Prim.Native.String.{String, [] as empty, ◌∷◌ as char, ◌++◌ as append}
use mathlib.Core.Path.{subst}
use text.Mathlib.TextLemmas.{cons-append}
use nest_base.Base.{
  ℕ, false, some, [], ◌∷◌, leb, if◌then◌else◌, ◌==◌, ◌≡◌, ◌≢◌, refl, ap, ◌∙◌, ◌≤◌, Bool-cases, inl,
  inr, eq_iff, eq_refl, arith,
}
use nest_base.Base.Text.{replace_all}
use nest_base.Base.Split.{split, Lacks, replace_all-Lacks, split-Lacks, split-append, append_assoc}
use nest_base.Base.Decimal.{Starts, print, print_whole, parse_int-print, print-Lacks, print-Starts}
use nest_base.ShareLink.Token.{
  ShareLinkResult, base64url_encode, is_empty, payload_of, compute_signature, sign_until,
  sign_share_link, verify_signed, verify_parts, verify_share_link,
}

-- What is documented of a digest in base64: it is not empty, does not begin with the padding, and
-- has no full stop.
abbrev pub IsBase64 : String → Type 0
IsBase64 empty = ⊥
IsBase64 (char c s) = (code c ≢ b'=') × Lacks b'.' (char c s)

base64url_encode-Lacks : (s : String) → Lacks b'.' s → Lacks b'.' (base64url_encode s)
unfolding base64url_encode
base64url_encode-Lacks s h = replace_all-Lacks b'.' "=" "" _ tt (
    replace_all-Lacks b'.' "/" "_" _ (ground arith, tt)
      (replace_all-Lacks b'.' "+" "-" s (ground arith, tt) h))

-- The text has a first character, and it is not this one.
abbrev Opens : ℕ → String → Type 0
Opens n empty = ⊥
Opens n (char c s) = code c ≢ n

Opens-append : (n : ℕ) (s t : String) → Opens n s → Opens n (append s t)
Opens-append n empty t h = absurd h
Opens-append n (char c s) t h = rw (cons-append c s t) h

replace_all-Opens :
    (n : ℕ) (from : Char) (to s : String) → Opens n to → Opens n s → Opens n (replace_all from to s)
unfolding replace_all
replace_all-Opens n from to empty ht h = absurd h
replace_all-Opens n from to (char c s) ht h = elim (Bool-cases (code c == code from)) [
  | inl e ↦ rw e (Opens-append n to (replace_all from to s) ht)
  | inr e ↦ rw e h
]

replace_all-Starts :
    (from : Char) (to s : String) → Opens (code from) s → Starts (replace_all from to s)
unfolding replace_all
replace_all-Starts from to empty h = absurd h
replace_all-Starts from to (char c s) h =
    let other : (code c == code from) ≡ false = ground arith in rw other tt

IsBase64-Opens : (s : String) → IsBase64 s → Opens b'=' s
IsBase64-Opens empty h = absurd h
IsBase64-Opens (char c s) h = h.0

IsBase64-Lacks : (s : String) → IsBase64 s → Lacks b'.' s
IsBase64-Lacks empty h = absurd h
IsBase64-Lacks (char c s) h = h.1

base64url_encode-Starts : (s : String) → IsBase64 s → Starts (base64url_encode s)
unfolding base64url_encode
base64url_encode-Starts s h = replace_all-Starts "=" "" _ (
    replace_all-Opens b'=' "/" "_" _ (ground arith)
      (replace_all-Opens b'=' "+" "-" s (ground arith) (IsBase64-Opens s h)))

is_empty-Starts : (s : String) → Starts s → is_empty s ≡ false
is_empty-Starts s h = elim (Bool-cases (is_empty s)) [
  | inl e ↦ absurd (subst Starts ((eq_iff s "").0 e) h)
  | inr e ↦ e
]

regroup :
    (d : Char) (f s y : String) → append (append f (char d s)) y ≡ append f (char d (append s y))
regroup d f s y = append_assoc f (char d s) y ∙ ap (append f) (cons-append d s y)

split-token :
    (f t e g : String)
    → Lacks b'.' f
    → Lacks b'.' t
    → Lacks b'.' e
    → Lacks b'.' g
    → split "." (append (append f (char "." (append t (char "." e)))) (char "." g))
      ≡ f ∷ t ∷ e ∷ g ∷ []
split-token f t e g hf ht he hg =
    ap (split ".") (regroup "." f (append t (char "." e)) (char "." g))
    ∙ split-append "." f _ hf
    ∙ ap (λ x. f ∷ split "." x) (regroup "." t e (char "." g))
    ∙ ap (λ ps. f ∷ ps) (split-append "." t _ ht)
    ∙ ap (λ ps. f ∷ t ∷ ps) (split-append "." e g he)
    ∙ ap (λ ps. f ∷ t ∷ e ∷ ps) (split-Lacks "." g hg)

module _ (digest : (payload secret : String) → String)
    (digest-IsBase64 : (payload secret : String) → IsBase64 (digest payload secret)) where
  compute_signature-Lacks : (p secret : String) → Lacks b'.' (compute_signature digest p secret)
  unfolding compute_signature
  compute_signature-Lacks p secret =
      base64url_encode-Lacks _ (IsBase64-Lacks _ (digest-IsBase64 p secret))

  compute_signature-Starts : (p secret : String) → Starts (compute_signature digest p secret)
  unfolding compute_signature
  compute_signature-Starts p secret = base64url_encode-Starts _ (digest-IsBase64 p secret)

  token-parts :
      (f t secret : String) (n : ℕ)
      → Lacks b'.' f
      → Lacks b'.' t
      → (let p = payload_of f t (record { negative = false; size = n }) in
          split "." (append p (char "." (compute_signature digest p secret)))
          ≡ f ∷ t ∷ print n ∷ compute_signature digest p secret ∷ [])
  unfolding payload_of print_whole
  token-parts f t secret n hf ht =
      split-token f t (print n) _ hf ht (print-Lacks b'.' refl n) (compute_signature-Lacks _ secret)

  -- Whoever signs a link to a file and a tenant whose ids are not empty and have no full stop, until
  -- a time after zero and with a secret, gets a token, and `verifyShareLink` answers it with the
  -- file, the tenant and the time before that time, and that it is expired from then on, if a
  -- digest in base64 is not empty, does not begin with the padding and has no full stop.
  pub verify_share_link-sign_share_link :
      (f t secret : String) (n now : ℕ)
      → Starts f
      → Starts t
      → Starts secret
      → Lacks b'.' f
      → Lacks b'.' t
      → 1 ≤ n
      → (token : String) × (sign_share_link digest (record {
        file_id = f;
        tenant_id = t;
        expires_at_ms = some (record { negative = false; size = n });
        secret = secret;
      })
          ≡ ShareLinkResult.ok token)
        × (verify_share_link digest token secret now ≡ (
            if leb n now
            then ShareLinkResult.expired "token expired"
            else ShareLinkResult.ok (record {
              file_id = f;
              tenant_id = t;
              expires_at_ms = record { negative = false; size = n };
            })))
  unfolding sign_share_link sign_until verify_share_link verify_parts verify_signed
  verify_share_link-sign_share_link f t secret n now hf ht hs lf lt pos =
      let p = payload_of f t (record { negative = false; size = n }) in
      let g = compute_signature digest p secret in
      (
        append p (char "." g),
        rw (is_empty-Starts f hf)
            (rw (is_empty-Starts t ht) (rw (is_empty-Starts secret hs) (ground arith))),
        rw (token-parts f t secret n lf lt) (
            rw (is_empty-Starts f hf) (
              rw (is_empty-Starts t ht) (
                rw (is_empty-Starts (print n) (print-Starts n)) (
                  rw (is_empty-Starts g (compute_signature-Starts p secret))
                    (rw (parse_int-print n) (rw (eq_refl g) refl)))))),
      )
