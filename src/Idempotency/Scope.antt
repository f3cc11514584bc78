-- ===== src/Idempotency/Scope.antt =====
-- Scoped keys keep the callers apart.
use Prim.Native.Char.{Char, code}
use Prim.Native.String.{[], ◌∷◌, ◌++◌}
use text.Mathlib.TextLemmas.{nil-append, cons-append, head-eq_of_cons-eq, tail-eq_of_cons-eq}
use mathlib.Core.Path.{ap₂}
use nest_base.Base.{arith, String, Option, none, some, ◌≡◌, ◌≢◌, refl, sym, ap, ◌∙◌}
use nest_base.Idempotency.{scope_idempotency_key}

abbrev pub NoColon : String → Type 0
NoColon [] = Unit
NoColon (c ∷ s) = (code c ≢ b':') × NoColon s

abbrev marked : String → String → String
marked user key = user ++ ("::" ++ key)

colon : Char
colon = ":"

marked-nil : (k : String) → marked "" k ≡ colon ∷ (colon ∷ k)
unfolding colon
marked-nil k =
    nil-append _
    ∙ cons-append ":" ":" k
    ∙ ap (λ s. ":" ∷ s) (cons-append ":" "" k)
    ∙ ap (λ s. ":" ∷ (":" ∷ s)) (nil-append k)

marked-cons : (c : Char) (u k : String) → marked (c ∷ u) k ≡ c ∷ marked u k
marked-cons c u k = cons-append c u _

colon_first : (c : Char) (u k j : String) → marked (c ∷ u) k ≡ marked "" j → code c ≡ b':'
unfolding colon
colon_first c u k j e = ap code (head-eq_of_cons-eq (sym (marked-cons c u k) ∙ (e ∙ marked-nil j)))

marked-inj :
    (u v k j : String) → NoColon u → NoColon v → marked u k ≡ marked v j → (u ≡ v) × (k ≡ j)
marked-inj [] [] k j hu hv e =
    (refl, tail-eq_of_cons-eq (tail-eq_of_cons-eq (sym (marked-nil k) ∙ (e ∙ marked-nil j))))
marked-inj [] (d ∷ v) k j hu hv e = absurd (hv.0 (colon_first d v j k (sym e)))
marked-inj (c ∷ u) [] k j hu hv e = absurd (hu.0 (colon_first c u k j e))
marked-inj (c ∷ u) (d ∷ v) k j hu hv e =
    let same = sym (marked-cons c u k) ∙ (e ∙ marked-cons d v j) in
    let (tails, keys) = marked-inj u v k j hu.1 hv.1 (tail-eq_of_cons-eq same) in
    (ap₂ (λ x s. x ∷ s) (head-eq_of_cons-eq same) tails, keys)

-- A user id as the session gives it: no colon, and not the word that stands for no user.
abbrev pub IsUserId : Option String → Type 0
IsUserId none = Unit
IsUserId (some id) = NoColon id × (id ≢ "anon")

anon-NoColon : NoColon "anon"
anon-NoColon = omega arith

-- Where no user id holds a colon or is "anon", two calls share a scoped key only if the same user,
-- or no user both times, sends the same idempotency key.
pub scope_idempotency_key-inj :
    (user other : Option String) (key key' : String)
    → IsUserId user
    → IsUserId other
    → scope_idempotency_key key user ≡ scope_idempotency_key key' other
    → (user ≡ other) × (key ≡ key')
unfolding scope_idempotency_key
scope_idempotency_key-inj none none k j hu hv e =
    (refl, (marked-inj "anon" "anon" k j anon-NoColon anon-NoColon e).1)
scope_idempotency_key-inj none (some v) k j hu hv e =
    absurd (hv.1 (sym (marked-inj "anon" v k j anon-NoColon hv.0 e).0))
scope_idempotency_key-inj (some u) none k j hu hv e =
    absurd (hu.1 (marked-inj u "anon" k j hu.0 anon-NoColon e).0)
scope_idempotency_key-inj (some u) (some v) k j hu hv e =
    let (users, keys) = marked-inj u v k j hu.0 hv.0 e in (ap some users, keys)
