-- ===== src/ShareLink/Token.antt =====
-- `signShareLink` and `verifyShareLink` of core/files/share-link.ts. The HMAC of `node:crypto` is a
-- parameter, `digest payload secret` in base64. A number is a whole one, or none where it is not
-- finite; fractions and the rounding above 2^53 are left out. Two texts are the same bytes in
-- UTF-8 if they are the same text, which is what the comparison of the two buffers comes to.
use Prim.Native.String.{String, ◌∷◌ as char, ◌++◌ as append}
use nest_base.Base.{
  ℕ, Bool, not, ◌||◌, Option, none, some, List, [], ◌∷◌, leb, str_eq, if◌then◌else◌, ◌==◌,
}
use nest_base.Base.Text.{replace_all}
use nest_base.Base.Split.{split}
use nest_base.Base.Decimal.{Whole, parse_int, print_whole}

pub record SignShareLinkInput : Type 0 where
  pub file_id : String
  pub tenant_id : String
  pub expires_at_ms : Option Whole
  pub secret : String

pub record VerifiedShareLink : Type 0 where
  pub file_id : String
  pub tenant_id : String
  pub expires_at_ms : Whole

-- A value, or one of the two errors with its message.
pub data ShareLinkResult (A : Type 0) : Type 0 where
  ok : A → ShareLinkResult A
  invalid : String → ShareLinkResult A
  expired : String → ShareLinkResult A

-- base64urlEncode, from the base64 text on
unfoldable pub base64url_encode : String → String
unfolding replace_all
base64url_encode s = replace_all "=" "" (replace_all "/" "_" (replace_all "+" "-" s))

abbrev pub is_empty : String → Bool
is_empty s = str_eq s ""

-- `${fileId}.${tenantId}.${expiresAtMs}`
unfoldable pub payload_of : (file_id tenant_id : String) → Whole → String
payload_of file_id tenant_id expires_at =
    append file_id (char "." (append tenant_id (char "." (print_whole expires_at))))

module _ (digest : (payload secret : String) → String) where
  unfoldable pub compute_signature : (payload secret : String) → String
  unfolding base64url_encode
  compute_signature payload secret = base64url_encode (digest payload secret)

  -- What follows the checks of the three texts.
  unfoldable pub sign_until : SignShareLinkInput → Option Whole → ShareLinkResult String
  unfolding compute_signature payload_of
  sign_until input none = invalid "expiresAtMs must be a positive number"
  sign_until input (some n) =
      let payload = payload_of input.file_id input.tenant_id n in
      if n.negative || n.size == 0
      then invalid "expiresAtMs must be a positive number"
      else ok (append payload (char "." (compute_signature payload input.secret)))

  unfoldable pub sign_share_link : SignShareLinkInput → ShareLinkResult String
  unfolding sign_until
  sign_share_link input =
      if is_empty input.file_id
      then invalid "fileId is required"
      else if is_empty input.tenant_id
      then invalid "tenantId is required"
      else if is_empty input.secret
      then invalid "secret is required"
      else sign_until input input.expires_at_ms

  -- nowMs >= expiresAtMs
  abbrev pub reached : (now_ms : ℕ) → Whole → Bool
  reached now_ms expires_at = expires_at.negative || leb expires_at.size now_ms

  -- The checks of the signature and of the time.
  unfoldable pub verify_signed :
      (secret : String) (now_ms : ℕ) (file_id tenant_id sig : String)
      → Option Whole
      → ShareLinkResult VerifiedShareLink
  unfolding compute_signature payload_of
  verify_signed secret now_ms file_id tenant_id sig none =
      invalid "expiresAt segment is not numeric"
  verify_signed secret now_ms file_id tenant_id sig (some n) =
      let expected = compute_signature (payload_of file_id tenant_id n) secret in
      let link : VerifiedShareLink = record {
        file_id = file_id;
        tenant_id = tenant_id;
        expires_at_ms = n;
      } in
      if not (str_eq sig expected)
      then invalid "signature mismatch"
      else if reached now_ms n
      then expired "token expired"
      else ok link

  unfoldable pub verify_parts :
      (secret : String) (now_ms : ℕ) → List String → ShareLinkResult VerifiedShareLink
  unfolding verify_signed
  verify_parts secret now_ms (file_id ∷ tenant_id ∷ raw ∷ sig ∷ []) =
      if is_empty file_id || is_empty tenant_id || is_empty raw || is_empty sig
      then invalid "token has empty segment(s)"
      else verify_signed secret now_ms file_id tenant_id sig (parse_int raw)
  verify_parts secret now_ms parts = invalid "token must have 4 dot-separated segments"

  unfoldable pub verify_share_link :
      (token secret : String) (now_ms : ℕ) → ShareLinkResult VerifiedShareLink
  unfolding verify_parts
  verify_share_link token secret now_ms = verify_parts secret now_ms (split "." token)
