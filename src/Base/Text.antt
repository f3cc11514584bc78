-- ===== src/Base/Text.antt =====
-- `startsWith`, `endsWith`, `slice` and `replaceAll` on strings, character by character.
use Prim.Native.Char.{Char, code}
use Prim.Native.String.{String, [], ◌∷◌, ◌++◌}
use nest_base.Base.Tests.{◌==◌, is_some, if◌then◌else◌}
use mathlib.Core.Bool.{Bool, false}
use mathlib.Core.Option.{Option, none, some}

-- s.startsWith(prefix), with what follows the prefix
unfoldable pub after_prefix : String → String → Option String
after_prefix [] s = some s
after_prefix (c ∷ p) [] = none
after_prefix (c ∷ p) (d ∷ s) = if code c == code d then after_prefix p s else none

unfoldable pub starts_with : String → String → Bool
unfolding after_prefix
starts_with p s = is_some (after_prefix p s)

-- s.endsWith("/")
unfoldable pub ends_with_slash : String → Bool
ends_with_slash [] = false
ends_with_slash (c ∷ []) = code c == b'/'
ends_with_slash (c ∷ d ∷ s) = ends_with_slash (d ∷ s)

-- s.slice(0, -1)
unfoldable pub drop_last : String → String
drop_last [] = []
drop_last (c ∷ []) = []
drop_last (c ∷ d ∷ s) = c ∷ drop_last (d ∷ s)

-- text.replaceAll(from, to), where `from` is one character
unfoldable pub replace_all : (from : Char) (to : String) → String → String
replace_all from to [] = []
replace_all from to (c ∷ s) =
    let rest = replace_all from to s in if code c == code from then to ++ rest else c ∷ rest
