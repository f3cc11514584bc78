-- ===== src/ShareLink/Tests.antt =====
-- A link that is signed and resolved, and the theorems at concrete inputs.
use Prim.Native.String.{String}
use nest_base.Base.{ℕ, false, some, leb, if◌then◌else◌, ◌≡◌, refl, arith}
use nest_base.Base.Split.{split}
use nest_base.Base.Decimal.{Whole, parse_int, print}
use nest_base.ShareLink.Token.{
  VerifiedShareLink, ShareLinkResult, sign_share_link, verify_share_link,
}
use nest_base.ShareLink.RoundTrip.{IsBase64, verify_share_link-sign_share_link}
use nest_base.ShareLink.Soundness.{Vouches, verify_share_link-Vouches}

abbrev whole : ℕ → Whole
whole n = record { negative = false; size = n }

-- A digest that depends on nothing.
abbrev same_digest : (payload secret : String) → String
same_digest payload secret = "q+1/Zw=="

same_digest-IsBase64 : (payload secret : String) → IsBase64 (same_digest payload secret)
same_digest-IsBase64 payload secret = ground arith

abbrev link_until : ℕ → VerifiedShareLink
link_until n = record { file_id = "f1"; tenant_id = "t1"; expires_at_ms = whole n }

verify_share_link-sign_share_link_example :
    (token : String) × (sign_share_link same_digest (record {
      file_id = "f1";
      tenant_id = "t1";
      expires_at_ms = some (whole 1200);
      secret = "s";
    })
      ≡ ShareLinkResult.ok token)
    × (verify_share_link same_digest token "s" 1100 ≡ (
        if leb 1200 1100
        then ShareLinkResult.expired "token expired"
        else ShareLinkResult.ok (link_until 1200)))
verify_share_link-sign_share_link_example =
    verify_share_link-sign_share_link same_digest same_digest-IsBase64 "f1" "t1" "s" 1200 1100 tt tt
      tt (ground arith) (ground arith) (omega arith)

-- `parseInt` stops at the first character that is no digit, so that the time may be followed by more.
longer_time :
    verify_share_link same_digest "f1.t1.1200ms.q-1_Zw" "s" 1100
    ≡ ShareLinkResult.ok (link_until 1200)
unfolding verify_share_link split parse_int print
longer_time = refl

verify_share_link-Vouches_example :
    Vouches same_digest "s" 1100 (split "." "f1.t1.1200ms.q-1_Zw") (link_until 1200)
verify_share_link-Vouches_example =
    verify_share_link-Vouches same_digest "f1.t1.1200ms.q-1_Zw" "s" 1100 (link_until 1200)
      longer_time

too_late :
    verify_share_link same_digest "f1.t1.1200.q-1_Zw" "s" 1200
    ≡ ShareLinkResult.expired "token expired"
unfolding verify_share_link split parse_int print
too_late = refl

wrong_signature :
    verify_share_link same_digest "f1.t1.1200.q-1_Zx" "s" 1100
    ≡ ShareLinkResult.invalid "signature mismatch"
unfolding verify_share_link split parse_int print
wrong_signature = refl

-- Too many parts
dotted_id :
    verify_share_link same_digest "f.1.t1.1200.q-1_Zw" "s" 1100
    ≡ ShareLinkResult.invalid "token must have 4 dot-separated segments"
unfolding verify_share_link split parse_int print
dotted_id = refl

not_numeric :
    verify_share_link same_digest "f1.t1.soon.q-1_Zw" "s" 1100
    ≡ ShareLinkResult.invalid "expiresAt segment is not numeric"
unfolding verify_share_link split parse_int print
not_numeric = refl
