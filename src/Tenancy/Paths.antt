-- ===== src/Tenancy/Paths.antt =====
-- The constants of core/multi-tenancy/tenant-guard.ts, and the default mount path of
-- core/auth/better-auth-config.ts.
use nest_base.Base.{String, List, [], ◌∷◌}

abbrev pub better_auth_default_mount_path : String
better_auth_default_mount_path = "/api/auth"

abbrev pub exempt_exact : List String
exempt_exact =
    "/" ∷ "/api/" ∷ "/api" ∷ "/errors" ∷ "/api/errors" ∷ "/api/tenants" ∷ "/api-docs-json"
    ∷ "/api/metrics" ∷ "/openapi" ∷ []

abbrev pub static_exempt_prefixes : List String
static_exempt_prefixes =
    "/health/" ∷ "/docs/" ∷ "/errors/" ∷ "/hub/static/" ∷ "/api/me/" ∷ "/api/tenants/"
    ∷ "/api/files/share/" ∷ []
