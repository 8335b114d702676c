-- ===== src/Access.antt =====
-- frontend/src/features/authorization/useAuthorization.ts and Can.tsx: what the signed-in user
-- may do in the active property.
use mathlib.Core.Option
use lapor_kos.Prelude.{Bool, false, ◌&&◌, Option, none, some, ◌==◌, is_none, if◌then◌else◌}
use lapor_kos.Authorization.{MembershipRole, has_capability}
use lapor_kos.Authorization.Capabilities.{Capability}
use lapor_kos.Properties.Types.{PropertySummary}
use lapor_kos.Session.Types.{SessionUser}

unfoldable pub can : Option PropertySummary → Capability → Bool
can none capability = false
can (some p) capability = has_capability (some p.role) capability p.permissions

abbrev has_tenant_role : Option SessionUser → Bool
has_tenant_role none = false
has_tenant_role (some user) = user.role == "tenant"

unfoldable pub is_tenant : Option SessionUser → Option PropertySummary → Bool
is_tenant user active_property = has_tenant_role user && is_none active_property

unfoldable pub role : Option PropertySummary → Option MembershipRole
role active_property = Option.map (λ p. p.role) active_property

-- `Can`
unfoldable pub guarded {ℓ} : {A : Type ℓ} → Option PropertySummary → Capability → A → A → A
unfolding can
guarded active_property capability children fallback =
    if can active_property capability then children else fallback
