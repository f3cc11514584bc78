-- ===== src/StoragePath/Keys.antt =====
-- Which files get one key.
use Prim.Native.Char.{Char}
use Prim.Native.String.{String, [] as empty, ◌∷◌ as char, ◌++◌ as append}
use text.Mathlib.TextLemmas.{cons-append, head-eq_of_cons-eq, tail-eq_of_cons-eq}
use mathlib.Core.Path.{ap₂}
use nest_base.Base.{
  Bool, true, false, Option, none, some, str_eq, if◌then◌else◌, ◌≡◌, ◌≢◌, refl, sym, ap, ◌∙◌, arith,
}
use nest_base.Base.Split.{Lacks, append-inj}
use nest_base.StoragePath.{
  ResolveStoragePathInput, Resolved, resolved, refused, folder_of, sanitise_filename, path_of,
  placed, resolve_storage_path,
}

-- Texts of one length.
abbrev pub HaveOneLength : String → String → Type 0
HaveOneLength empty empty = Unit
HaveOneLength empty (char d t) = ⊥
HaveOneLength (char c s) empty = ⊥
HaveOneLength (char c s) (char d t) = HaveOneLength s t

append-inj_same : (u v s t : String) → HaveOneLength u v → append u s ≡ append v t → u ≡ v
append-inj_same empty empty s t h e = refl
append-inj_same empty (char d v) s t h e = absurd h
append-inj_same (char c u) empty s t h e = absurd h
append-inj_same (char c u) (char d v) s t h e =
    let same = sym (cons-append c u s) ∙ e ∙ cons-append d v t in
    ap₂ (λ x p. char x p) (head-eq_of_cons-eq same)
      (append-inj_same u v s t h (tail-eq_of_cons-eq same))

-- What ids are: a tenant's or a folder's has no slash, and no folder has the name of the root.
abbrev pub IsFolder : Option String → Type 0
IsFolder none = Unit
IsFolder (some f) = Lacks b'/' f × (f ≢ "_root")

IsFolder-Lacks : (o : Option String) → IsFolder o → Lacks b'/' (folder_of o)
IsFolder-Lacks none h = ground arith
IsFolder-Lacks (some f) h = h.0

folder_of-inj : (a b : Option String) → IsFolder a → IsFolder b → folder_of a ≡ folder_of b → a ≡ b
folder_of-inj none none ha hb e = refl
folder_of-inj none (some g) ha hb e = absurd (hb.1 (sym e))
folder_of-inj (some f) none ha hb e = absurd (ha.1 e)
folder_of-inj (some f) (some g) ha hb e = ap some e

unless_refused :
    (b : Bool) (message p : String) (next : Resolved)
    → (if b then refused message else next) ≡ resolved p
    → next ≡ resolved p
unless_refused true message p next e = cc
unless_refused false message p next e = e

module _ (is_alphanumeric : Char → Bool) where
  placed-path_of :
      (input : ResolveStoragePathInput) (r : Resolved) (p : String)
      → placed is_alphanumeric input r ≡ resolved p
      → (clean : String) × (r ≡ resolved clean) × (path_of is_alphanumeric input clean ≡ p)
  unfolding placed
  placed-path_of input (resolved clean) p e = (clean, refl, cc)
  placed-path_of input (refused message) p e = cc

  resolve_storage_path-path_of :
      (input : ResolveStoragePathInput) (p : String)
      → resolve_storage_path is_alphanumeric input ≡ resolved p
      → (clean : String) × (sanitise_filename is_alphanumeric input.filename ≡ resolved clean)
        × (path_of is_alphanumeric input clean ≡ p)
  unfolding resolve_storage_path
  resolve_storage_path-path_of input p e =
      placed-path_of input (sanitise_filename is_alphanumeric input.filename) p (
        unless_refused (str_eq input.filename "") _ p _ (
          unless_refused (str_eq input.file_id "") _ p _
            (unless_refused (str_eq input.tenant_id "") _ p _ e)))

  -- Two files that get one path are of one tenant, in one folder and have one id, whatever their
  -- names are, if ids of tenants and folders have no slash, no folder's id is `_root`, and the ids of
  -- the two files have one length, as UUIDs do.
  pub resolve_storage_path-inj :
      (i j : ResolveStoragePathInput) (p : String)
      → resolve_storage_path is_alphanumeric i ≡ resolved p
      → resolve_storage_path is_alphanumeric j ≡ resolved p
      → Lacks b'/' i.tenant_id
      → Lacks b'/' j.tenant_id
      → IsFolder i.folder_id
      → IsFolder j.folder_id
      → HaveOneLength i.file_id j.file_id
      → (i.tenant_id ≡ j.tenant_id) × (i.folder_id ≡ j.folder_id) × (i.file_id ≡ j.file_id)
  resolve_storage_path-inj i j p ei ej ti tj fi fj same =
      let (ci, _, pi) = resolve_storage_path-path_of i p ei in
      let (cj, _, pj) = resolve_storage_path-path_of j p ej in
      let (tenants, rests) = append-inj "/" i.tenant_id j.tenant_id _ _ ti tj (pi ∙ sym pj) in
      let (folders, files) =
        append-inj "/" (folder_of i.folder_id) (folder_of j.folder_id) _ _
          (IsFolder-Lacks i.folder_id fi) (IsFolder-Lacks j.folder_id fj) rests in
      (
        tenants,
        folder_of-inj i.folder_id j.folder_id fi fj folders,
        append-inj_same i.file_id j.file_id _ _ same files,
      )
