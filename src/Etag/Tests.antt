-- ===== src/Etag/Tests.antt =====
-- Headers of a mutation, and the theorems on them at concrete inputs.
use Prim.Native.String.{String}
use nest_base.Base.{some, [], map, ◌≡◌, refl, arith}
use nest_base.Base.Decimal.{print}
use nest_base.Etag.{
  EtagSourceFields, holds, etag_missing, etag_precondition_failed, compute_etag, verify_if_match,
}
use nest_base.Etag.Header.{header_of, verify_if_match-stale}

abbrev constant_digest : String → String
constant_digest s = "0123456789abcdef0123"

abbrev third : EtagSourceFields
third = record { version = 3; updated_at = "2026-01-01" }

abbrev fourth : EtagSourceFields
fourth = record { version = 4; updated_at = "2026-01-02" }

abbrev third_tag : String
third_tag = "\"v3-0123456789abcdef\""

tag_of_third : compute_etag constant_digest third ≡ third_tag
unfolding compute_etag print
tag_of_third = refl

listed : verify_if_match third_tag (some "\"v2-00\" ,W/\"v3\",, \"v3-0123456789abcdef\"") ≡ holds
unfolding verify_if_match
listed = refl

star : verify_if_match third_tag (some " * ") ≡ holds
unfolding verify_if_match
star = refl

weak :
    verify_if_match third_tag (some "W/\"v3-0123456789abcdef\"")
    ≡ etag_precondition_failed third_tag
unfolding verify_if_match
weak = refl

blank : verify_if_match third_tag (some "  ") ≡ etag_missing
unfolding verify_if_match
blank = refl

only_commas : verify_if_match third_tag (some " , ,") ≡ etag_precondition_failed third_tag
unfolding verify_if_match
only_commas = refl

verify_if_match-stale_example :
    verify_if_match (compute_etag constant_digest fourth) (
      some (header_of (compute_etag constant_digest third) (map (compute_etag constant_digest) [])))
    ≡ etag_precondition_failed (compute_etag constant_digest fourth)
verify_if_match-stale_example =
    verify_if_match-stale constant_digest (λ s. ground arith) fourth third [] (ground arith, tt)
