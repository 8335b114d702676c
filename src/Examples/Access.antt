-- ===== src/Examples/Access.antt =====
-- Roles, paths and the shell: frontend/src/features/authorization, frontend/src/middleware.ts and
-- frontend/src/components/layout.
use lapor_kos.Prelude.{String, ◌≡◌, refl, true, false, [], ◌∷◌, none, some}
use lapor_kos.Authorization.{manager, finance, viewer, has_capability, role_capabilities}
use lapor_kos.Authorization.Capabilities.{capability, room_read, room_write, payment_verify}
use lapor_kos.Authorization.Laws.{duties_separated, may_hold}
use lapor_kos.Properties.Types.{PropertySummary}
use lapor_kos.Session.Types.{SessionUser}
use lapor_kos.Access.{can, is_tenant}
use lapor_kos.Middleware.{redirect, next, is_protected, is_auth_path, middleware}
use lapor_kos.Middleware.Laws.{redirect_settles}
use lapor_kos.Navigation.{get_required_capability, is_staff_only_path}
use lapor_kos.Navigation.Laws.{AllItems}
use lapor_kos.Shell.{Shell, redirect_target, page, view, navigation}
use lapor_kos.Shell.Laws.{navigation-stays}

abbrev kos : PropertySummary
kos = record {
  id = "kos-1";
  name = "Kos Melati";
  address = none;
  timezone = "Asia/Jakarta";
  currency = "IDR";
  status = "active";
  membership_id = "m-1";
  role = finance;
  permissions = some ("complaint.read" ∷ []);
}

abbrev sari : SessionUser
sari = record {
  id = "u-1";
  name = "Sari";
  email = "sari@example.com";
  phone = none;
  role = "owner";
  whatsapp_group_link = none;
}

abbrev at_path : String → Shell
at_path pathname = record {
  user = some sari;
  is_session_loading = false;
  session_error = none;
  properties = kos ∷ [];
  active_property = some kos;
  is_property_loading = false;
  pathname = pathname;
}

shell_tests :
    (redirect_target (at_path "/invoices/7") ≡ none)
    × (view (at_path "/invoices/7") ≡ page)
    × (redirect_target (at_path "/complaints") ≡ none)
    × (redirect_target (at_path "/rules") ≡ some "/")
unfolding redirect_target view get_required_capability is_tenant can has_capability
    role_capabilities is_staff_only_path
shell_tests = (refl, refl, refl, refl)

navigation-stays_example :
    AllItems (λ i. redirect_target (at_path i.href) ≡ none) (navigation (at_path "/"))
navigation-stays_example = navigation-stays (at_path "/")

capability_tests :
    (has_capability (some finance) (capability payment_verify) none ≡ true)
    × (has_capability (some viewer) (capability room_read) none ≡ true)
    × (has_capability (some manager) (capability payment_verify) none ≡ false)
    × (has_capability (some viewer) (capability room_write) (some ("room.write" ∷ [])) ≡ true)
    × (has_capability none (capability room_read) (some ("*" ∷ [])) ≡ false)
unfolding has_capability role_capabilities
capability_tests = (refl, refl, refl, refl, refl)

duties_separated_example : may_hold payment_verify finance ≡ true
duties_separated_example = duties_separated finance payment_verify capability_tests.0

middleware_tests :
    (middleware none "/rooms/add" ≡ redirect "/login")
    × (middleware (some "t") "/login" ≡ redirect "/")
    × (middleware (some "t") "/rooms" ≡ next)
    × (middleware none "/roomsters" ≡ next)
unfolding middleware is_protected is_auth_path
middleware_tests = (refl, refl, refl, refl)

redirect_settles_example : middleware none "/login" ≡ next
redirect_settles_example = redirect_settles none "/rooms/add" "/login" middleware_tests.0
