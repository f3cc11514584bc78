-- ===== src/Webhooks/Url.antt =====
-- core/webhooks/webhook-url-validator.ts and the header of hmac-signature.ts. The runtime's URL parser,
-- its `toLowerCase` and HMAC-SHA256 in base64 are parameters.
use Prim.Native.Char.{Char, code}
use Prim.Native.String.{String, [], ◌∷◌, ◌++◌}
use nest_base.Base.Text.{after_prefix, starts_with}
use nest_base.Base.{
  ℕ, Bool, false, not, ◌&&◌, ◌||◌, Option, none, some, str_eq, leb, ◌==◌, if◌then◌else◌,
}

pub record Url : Type 0 where
  pub protocol : String
  pub hostname : String

-- `parse_url` is `none` where `new URL` throws.
pub record Platform : Type 0 where
  pub parse_url : String → Option Url
  pub to_lower_case : String → String
  pub hmac_sha256_base64 : (secret text : String) → String

abbrev between : ℕ → ℕ → Char → Bool
between low high c = leb low (code c) && leb (code c) high

-- [0-9a-f] with the flag i
abbrev is_hex : Char → Bool
is_hex c = between b'0' b'9' c || between b'a' b'f' c || between b'A' b'F' c

-- (1[6-9]|2\d|3[01])\.
is_private_octet : String → Bool
is_private_octet (c ∷ d ∷ e ∷ s) =
    (code e == b'.')
    && (((code c == b'1') && between b'6' b'9' d)
        || ((code c == b'2') && between b'0' b'9' d)
        || ((code c == b'3') && between b'0' b'1' d))
is_private_octet _ = false

is_private_172 : String → Bool
unfolding is_private_octet
is_private_172 s = elim (after_prefix "172." s) [ none ↦ false | some rest ↦ is_private_octet rest ]

-- fc[0-9a-f]{2}:, fd[0-9a-f]{2}: and fe[89ab][0-9a-f]: with the flag i
is_local_ipv6 : String → Bool
is_local_ipv6 (f ∷ c ∷ d ∷ e ∷ g ∷ s) =
    ((code f == b'f') || (code f == b'F'))
    && ((code g == b':') && is_hex e)
    && (((between b'c' b'd' c || between b'C' b'D' c) && is_hex d)
        || (((code c == b'e') || (code c == b'E'))
            && (between b'8' b'9' d || between b'a' b'b' d || between b'A' b'B' d)))
is_local_ipv6 _ = false

-- \[?
after_bracket : String → String
after_bracket [] = []
after_bracket (c ∷ s) = if code c == b'[' then s else c ∷ s

-- BLOCKED_HOSTNAME_PATTERNS.some((re) => re.test(hostname))
unfoldable pub is_blocked : (hostname : String) → Bool
unfolding is_private_172 is_local_ipv6 after_bracket
is_blocked h =
    str_eq h "localhost"
    || starts_with "127." h
    || (str_eq h "::1" || str_eq h "[::1]")
    || str_eq h "0.0.0.0"
    || starts_with "10." h
    || is_private_172 h
    || starts_with "192.168." h
    || starts_with "169.254." h
    || starts_with "metadata." h
    || starts_with "100.64." h
    || is_local_ipv6 (after_bracket h)

module _ (pf : Platform) where
  -- `validateWebhookUrl`: whether it returns. Every exception it throws is InvalidWebhookUrlError.
  unfoldable pub validate_webhook_url : (url : String) → Bool
  validate_webhook_url url = elim (pf.parse_url url) [
    | none ↦ false
    | some parsed ↦
        if not (str_eq parsed.protocol "http:" || str_eq parsed.protocol "https:")
        then false
        else not (is_blocked (pf.to_lower_case parsed.hostname))
  ]

  abbrev pub sign_webhook_body : (secret timestamp body : String) → String
  sign_webhook_body secret timestamp body =
      pf.hmac_sha256_base64 secret (timestamp ++ ("." ++ body))

  abbrev pub build_hmac_signature_header : (secret timestamp body : String) → String
  build_hmac_signature_header secret timestamp body =
      "t=" ++ (timestamp ++ (",v1=" ++ sign_webhook_body secret timestamp body))
