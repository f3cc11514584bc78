-- ===== src/Tenancy/Tests.antt =====
-- Runs of the tenant guard's classifier, and its theorem at a concrete input.
use mathlib.Core.Bool.{false≢true}
use Prim.Native.String.{◌++◌, ◌∷◌}
use nest_base.Base.{true, false, some, none, ◌≡◌, refl, arith, eq_iff}
use nest_base.Base.Text.{starts_with, ends_with_slash, drop_last}
use nest_base.Tenancy.Guard.{
  pure_path, resolve_auth_exempt_prefix, is_exempt_path, is_tenant_exempt, requires_tenant,
  requires_tenant-append,
}

requires_tenant-append_example :
    requires_tenant none ("/api/files" ++ ("?" ∷ "x=/errors")) ≡ requires_tenant none "/api/files"
requires_tenant-append_example =
    requires_tenant-append none "/api/files" "x=/errors" "?"
      (λ e. false≢true ((eq_iff "/api/files" "").1 e)) (omega arith) refl

files_need_a_tenant : requires_tenant none "/api/files?x=1" ≡ some true
unfolding requires_tenant is_tenant_exempt pure_path is_exempt_path resolve_auth_exempt_prefix
    starts_with drop_last ends_with_slash
files_need_a_tenant = refl

login_needs_none : requires_tenant (some "/login") "/login/sign-in#top" ≡ some false
unfolding requires_tenant is_tenant_exempt pure_path is_exempt_path resolve_auth_exempt_prefix
    starts_with drop_last ends_with_slash
login_needs_none = refl
