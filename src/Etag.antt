-- ===== src/Etag.antt =====
-- core/concurrency/etag.ts: the tag of a record's version, and the If-Match header of a mutation.
-- `digest` is the SHA-256 of a text in hex, a parameter.
use Prim.Native.String.{String, [] as empty, ◌∷◌ as char, ◌++◌ as append}
use nest_base.Base.{
  ℕ, zero, suc, Bool, not, Option, none, some, List, [], ◌∷◌, map, filter, str_eq, if◌then◌else◌,
}
use nest_base.Base.Text.{starts_with}
use nest_base.Base.Split.{split}
use nest_base.Base.Decimal.{print}
use nest_base.Base.Trim.{trim}
pub mod Header
mod Tests

pub record EtagSourceFields : Type 0 where
  pub version : ℕ
  pub updated_at : String

-- No error, or one of the two.
pub data Precondition : Type 0 where
  holds : Precondition
  etag_missing : Precondition
  etag_precondition_failed : (current_etag : String) → Precondition

-- text.slice(0, n)
unfoldable pub slice_to : ℕ → String → String
slice_to zero s = empty
slice_to (suc n) empty = empty
slice_to (suc n) (char c s) = char c (slice_to n s)

-- `v${version}-${hash}`
unfoldable pub tag_of : (version : ℕ) (hash : String) → String
tag_of version hash = char "v" (append (print version) (char "-" hash))

unfoldable pub compute_etag : (digest : String → String) → EtagSourceFields → String
unfolding tag_of slice_to
compute_etag digest source =
    let fingerprint = append (print source.version) (char "|" source.updated_at) in
    let hash = slice_to 16 (digest fingerprint) in
    char "\"" (append (tag_of source.version hash) "\"")

unfoldable pub parse_if_match : Option String → List String
unfolding trim split
parse_if_match none = []
parse_if_match (some header) =
    if str_eq header ""
    then []
    else filter (λ part. not (str_eq part "")) (map trim (split "," header))

unfoldable pub verify_candidates : (current_etag : String) → List String → Precondition
unfolding starts_with
verify_candidates current_etag [] = etag_precondition_failed current_etag
verify_candidates current_etag (candidate ∷ candidates) =
    let rest = verify_candidates current_etag candidates in
    if str_eq candidate "*"
    then holds
    else if starts_with "W/" candidate
    then rest
    else if str_eq candidate current_etag
    then holds
    else rest

unfoldable pub verify_if_match : (current_etag : String) → Option String → Precondition
unfolding verify_candidates parse_if_match trim
verify_if_match current_etag none = etag_missing
verify_if_match current_etag (some header) =
    if str_eq (trim header) ""
    then etag_missing
    else verify_candidates current_etag (parse_if_match (some header))
