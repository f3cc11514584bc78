-- ===== src/Etag/Header.antt =====
-- Headers that list tags of records, and the tags `verifyIfMatch` lets through.
use Prim.Native.Char.{code}
use Prim.Native.String.{String, [] as empty, ◌∷◌ as char, ◌++◌ as append}
use text.Mathlib.TextLemmas.{cons-append, append-nil as append-empty, tail-eq_of_cons-eq}
use mathlib.Core.Path.{subst, ap₂}
use nest_base.Base.{
  ℕ, zero, suc, false, not, some, List, [], ◌∷◌, map, filter, any, All, str_eq, eq_iff,
  if◌then◌else◌, ◌≡◌, ◌≢◌, refl, sym, ap, ◌∙◌, Bool-cases, inl, inr, arith,
}
use nest_base.Base.Text.{after_prefix, starts_with}
use nest_base.Base.Split.{
  split, Lacks, Lacks-append, split-Lacks, split-append, append-inj, append_assoc,
}
use nest_base.Base.Decimal.{Starts, skip_space, print, print-inj, print-Lacks}
use nest_base.Base.Trim.{trim, trim_end, trim-between, trim-space, Starts-filled}
use nest_base.Etag.{
  EtagSourceFields, holds, etag_precondition_failed, slice_to, tag_of, compute_etag, parse_if_match,
  verify_candidates, verify_if_match,
}

slice_to-Lacks : (k n : ℕ) (s : String) → Lacks k s → Lacks k (slice_to n s)
unfolding slice_to
slice_to-Lacks k zero s h = tt
slice_to-Lacks k (suc n) empty h = tt
slice_to-Lacks k (suc n) (char c s) h = (h.0, slice_to-Lacks k n s h.1)

-- The version can be read off the tag.
quoted_tag_of-inj :
    (m n : ℕ) (a b : String)
    → char "\"" (append (tag_of m a) "\"") ≡ char "\"" (append (tag_of n b) "\"")
    → m ≡ n
unfolding tag_of
quoted_tag_of-inj m n a b e =
    let spread : (k : ℕ) (h : String)
        → append (char "v" (append (print k) (char "-" h))) "\""
          ≡ char "v" (append (print k) (char "-" (append h "\""))) =
      λ k h.
        cons-append "v" (append (print k) (char "-" h)) "\""
        ∙ ap (char "v") (
            append_assoc (print k) (char "-" h) "\""
            ∙ ap (append (print k)) (cons-append "-" h "\"")) in
    let tags = sym (spread m a) ∙ tail-eq_of_cons-eq e ∙ spread n b in
    print-inj m n
      (append-inj "-" (print m) (print n) (append a "\"") (append b "\"")
        (print-Lacks b'-' (ground arith) m) (print-Lacks b'-' (ground arith) n)
        (tail-eq_of_cons-eq tags)).0

-- The tags, with a comma and a space before each.
abbrev further : List String → String
further [] = empty
further (t ∷ ts) = char "," (char " " (append t (further ts)))

-- t, t1, t2, ...
abbrev pub header_of : String → List String → String
header_of t ts = append t (further ts)

split-header :
    (p : String) (ts : List String)
    → Lacks b',' p
    → All (Lacks b',') ts
    → split "," (header_of p ts) ≡ p ∷ map (char " ") ts
split-header p [] hp hs = ap (split ",") (append-empty p) ∙ split-Lacks "," p hp
split-header p (t ∷ ts) hp hs =
    split-append "," p (char " " (append t (further ts))) hp
    ∙ ap (λ xs. p ∷ xs)
        (ap (split ",") (sym (cons-append " " t (further ts)))
          ∙ split-header (char " " t) ts (ground arith, hs.0) hs.1)

map-trim : (ts : List String) → All (λ t. trim t ≡ t) ts → map trim (map (char " ") ts) ≡ ts
map-trim [] h = refl
map-trim (t ∷ ts) h = ap₂ (λ x xs. x ∷ xs) (trim-space t ∙ h.0) (map-trim ts h.1)

keeps_filled :
    (ts : List String)
    → All (λ t. str_eq t "" ≡ false) ts
    → filter (λ part. not (str_eq part "")) ts ≡ ts
keeps_filled [] h = refl
keeps_filled (t ∷ ts) h = rw h.0 (ap (λ xs. t ∷ xs) (keeps_filled ts h.1))

All-map :
    {A B : Type 0} (P : B → Type 0) (f : A → B) (xs : List A)
    → ((x : A) → P (f x))
    → All P (map f xs)
All-map P f [] h = tt
All-map P f (x ∷ xs) h = (h x, All-map P f xs h)

abbrev Quoted : String → Type 0
Quoted empty = ⊥
Quoted (char c s) = code c ≡ b'"'

Quoted-star : (s : String) → Quoted s → str_eq s "*" ≡ false
Quoted-star s h = elim (Bool-cases (str_eq s "*")) [
  | inl e ↦ let same = subst Quoted ((eq_iff s "*").0 e) h in ground (arith, same)
  | inr e ↦ e
]

module _ (digest : String → String) (digest-Lacks : (s : String) → Lacks b',' (digest s)) where
  abbrev etag : EtagSourceFields → String
  etag s = compute_etag digest s

  etag-Lacks : (s : EtagSourceFields) → Lacks b',' (etag s)
  unfolding compute_etag tag_of
  etag-Lacks s = (
    ground arith,
    Lacks-append b',' _ "\""
        (
          ground arith,
          Lacks-append b',' (print s.version) _ (print-Lacks b',' (ground arith) s.version)
              (ground arith, slice_to-Lacks b',' 16 _ (digest-Lacks _)),
        )
        (ground arith, tt),
  )

  trim-etag : (s : EtagSourceFields) → trim (etag s) ≡ etag s
  unfolding compute_etag
  trim-etag s = trim-between "\"" "\"" _ refl refl

  etag-filled : (s : EtagSourceFields) → str_eq (etag s) "" ≡ false
  unfolding compute_etag
  etag-filled s = Starts-filled _ tt

  etag-star : (s : EtagSourceFields) → str_eq (etag s) "*" ≡ false
  unfolding compute_etag
  etag-star s = Quoted-star _ refl

  etag-weak : (s : EtagSourceFields) → starts_with "W/" (etag s) ≡ false
  unfolding compute_etag starts_with after_prefix
  etag-weak s = refl

  header-Starts :
      (s : EtagSourceFields) (ts : List String)
      → Starts (header_of (etag s) ts) × Starts (trim (header_of (etag s) ts))
  unfolding compute_etag trim trim_end skip_space
  header-Starts s ts = rw (cons-append "\"" _ (further ts)) (tt, tt)

  parse_if_match-header_of :
      (s : EtagSourceFields) (ts : List EtagSourceFields)
      → parse_if_match (some (header_of (etag s) (map etag ts))) ≡ etag s ∷ map etag ts
  unfolding parse_if_match
  parse_if_match-header_of s ts =
      let kept : List String → List String = filter (λ part. not (str_eq part "")) in
      rw (Starts-filled _ (header-Starts s (map etag ts)).0) (
        ap (λ xs. kept (map trim xs))
          (split-header (etag s) (map etag ts) (etag-Lacks s)
            (All-map (Lacks b',') etag ts etag-Lacks))
        ∙ ap kept (
            ap₂ (λ x xs. x ∷ xs) (trim-etag s)
              (map-trim (map etag ts) (All-map (λ t. trim t ≡ t) etag ts trim-etag)))
        ∙ keeps_filled (etag s ∷ map etag ts)
            (etag-filled s, All-map (λ t. str_eq t "" ≡ false) etag ts etag-filled))

  verify_candidates-tags :
      (e : String) (ts : List EtagSourceFields)
      → verify_candidates e (map etag ts)
        ≡ (if any (λ t. str_eq (etag t) e) ts then holds else etag_precondition_failed e)
  unfolding verify_candidates
  verify_candidates-tags e [] = refl
  verify_candidates-tags e (t ∷ ts) =
      ground (arith, etag-star t, etag-weak t, verify_candidates-tags e ts)

  -- For a header that lists the tags of records, with a comma and a space between them, the
  -- precondition holds when one of them is the current tag, and has failed with the current tag
  -- when none is, if a digest has no comma.
  pub verify_if_match-header_of :
      (current_etag : String) (s : EtagSourceFields) (ts : List EtagSourceFields)
      → verify_if_match current_etag (some (header_of (etag s) (map etag ts))) ≡ (
          if any (λ t. str_eq (etag t) current_etag) (s ∷ ts)
          then holds
          else etag_precondition_failed current_etag)
  unfolding verify_if_match
  verify_if_match-header_of current_etag s ts =
      rw (Starts-filled _ (header-Starts s (map etag ts)).1) (
        ap (verify_candidates current_etag) (parse_if_match-header_of s ts)
        ∙ verify_candidates-tags current_etag (s ∷ ts))

  none_current :
      (now : EtagSourceFields) (ts : List EtagSourceFields)
      → All (λ t. t.version ≢ now.version) ts
      → any (λ t. str_eq (etag t) (etag now)) ts ≡ false
  unfolding compute_etag
  none_current now [] h = refl
  none_current now (t ∷ ts) h = elim (Bool-cases (str_eq (etag t) (etag now))) [
    | inl e ↦
        absurd
          (h.0 (quoted_tag_of-inj t.version now.version _ _ ((eq_iff (etag t) (etag now)).0 e)))
    | inr e ↦ rw e (none_current now ts h.1)
  ]

  -- A mutation whose If-Match header lists only tags of other versions of the record is refused with
  -- the record's tag, whatever their times are and even where two digests are the same, if a digest
  -- has no comma.
  pub verify_if_match-stale :
      (now s : EtagSourceFields) (ts : List EtagSourceFields)
      → All (λ t. t.version ≢ now.version) (s ∷ ts)
      → verify_if_match
          (compute_etag digest now)
          (some (header_of (compute_etag digest s) (map (compute_etag digest) ts)))
        ≡ etag_precondition_failed (compute_etag digest now)
  verify_if_match-stale now s ts h =
      verify_if_match-header_of (etag now) s ts
      ∙ ap (λ b. if b then holds else etag_precondition_failed (etag now))
          (none_current now (s ∷ ts) h)
