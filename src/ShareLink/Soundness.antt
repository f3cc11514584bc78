-- ===== src/ShareLink/Soundness.antt =====
-- Which tokens `verifyShareLink` lets through.
use Prim.Native.String.{String}
use mathlib.Core.Path.{subst}
use nest_base.Base.{
  ℕ, Bool, true, false, not, Option, none, some, List, [], ◌∷◌, if◌then◌else◌, ◌≡◌, refl, ap,
  eq_iff,
}
use nest_base.Base.Split.{split}
use nest_base.Base.Decimal.{Whole, parse_int}
use nest_base.ShareLink.Token.{
  VerifiedShareLink, ShareLinkResult, payload_of, compute_signature, reached, verify_signed,
  verify_parts, verify_share_link,
}

ok_link : VerifiedShareLink → ShareLinkResult VerifiedShareLink → VerifiedShareLink
ok_link link (ShareLinkResult.ok l) = l
ok_link link (ShareLinkResult.invalid m) = link
ok_link link (ShareLinkResult.expired m) = link

past_check :
    (b : Bool) (m : String) (r : ShareLinkResult VerifiedShareLink) (link : VerifiedShareLink)
    → (if b then ShareLinkResult.invalid m else r) ≡ ShareLinkResult.ok link
    → r ≡ ShareLinkResult.ok link
past_check true m r link h = cc
past_check false m r link h = h

past_checks :
    (same over : Bool) (m late : String) (r link : VerifiedShareLink)
    → (if not same
        then ShareLinkResult.invalid m
        else if over
        then ShareLinkResult.expired late
        else ShareLinkResult.ok r)
      ≡ ShareLinkResult.ok link
    → (same ≡ true) × (over ≡ false) × (r ≡ link)
unfolding ok_link
past_checks true true m late r link h = cc
past_checks true false m late r link h = (refl, refl, ap (ok_link link) h)
past_checks false over m late r link h = cc

module _ (digest : (payload secret : String) → String) where
  -- The parts are those of the link, signed with the secret, and the time is not reached.
  abbrev pub Vouches : (secret : String) (now_ms : ℕ) → List String → VerifiedShareLink → Type 0
  Vouches secret now parts link =
      (raw : String) × (parts
        ≡ link.file_id
          ∷ link.tenant_id
          ∷ raw
          ∷ compute_signature digest (payload_of link.file_id link.tenant_id link.expires_at_ms)
              secret
          ∷ [])
      × (parse_int raw ≡ some link.expires_at_ms)
      × (reached digest now link.expires_at_ms ≡ false)

  verify_signed-IsOk :
      (secret : String) (now : ℕ) (f t raw sig : String) (o : Option Whole)
      (link : VerifiedShareLink)
      → parse_int raw ≡ o
      → verify_signed digest secret now f t sig o ≡ ShareLinkResult.ok link
      → Vouches secret now (f ∷ t ∷ raw ∷ sig ∷ []) link
  unfolding verify_signed
  verify_signed-IsOk secret now f t raw sig none link e h = cc
  verify_signed-IsOk secret now f t raw sig (some n) link e h =
      let (same, early, is) = past_checks _ (reached digest now n) _ _ _ link h in
      subst (Vouches secret now (f ∷ t ∷ raw ∷ sig ∷ [])) is
        (raw, ap (λ g. f ∷ t ∷ raw ∷ g ∷ []) ((eq_iff sig _).0 same), e, early)

  verify_parts-IsOk :
      (secret : String) (now : ℕ) (parts : List String) (link : VerifiedShareLink)
      → verify_parts digest secret now parts ≡ ShareLinkResult.ok link
      → Vouches secret now parts link
  unfolding verify_parts
  verify_parts-IsOk secret now [] link h = cc
  verify_parts-IsOk secret now (f ∷ []) link h = cc
  verify_parts-IsOk secret now (f ∷ t ∷ []) link h = cc
  verify_parts-IsOk secret now (f ∷ t ∷ raw ∷ []) link h = cc
  verify_parts-IsOk secret now (f ∷ t ∷ raw ∷ sig ∷ []) link h =
      verify_signed-IsOk secret now f t raw sig (parse_int raw) link refl (past_check _ _ _ link h)
  verify_parts-IsOk secret now (f ∷ t ∷ raw ∷ sig ∷ p ∷ parts) link h = cc

  -- A token that `verifyShareLink` lets through has four parts: the file, the tenant, a text that
  -- `parseInt` reads as the time, and the signature of these three under the secret; and that time
  -- is still to come.
  pub verify_share_link-Vouches :
      (token secret : String) (now : ℕ) (link : VerifiedShareLink)
      → verify_share_link digest token secret now ≡ ShareLinkResult.ok link
      → Vouches secret now (split "." token) link
  unfolding verify_share_link
  verify_share_link-Vouches token secret now link h =
      verify_parts-IsOk secret now (split "." token) link h
