-- ===== src/Shell.antt =====
-- frontend/src/components/layout/DashboardShell.tsx: where the shell of the dashboard sends a user
-- and what it shows. The sidebar's state and the theme are left out.
pub mod Laws
use lapor_kos.Prelude.{
  String, Bool, true, false, not, ◌&&◌, ◌||◌, List, [], ◌∷◌, Option, none, some, ◌==◌, is_none,
  truthy, if◌then◌else◌,
}
use lapor_kos.Properties.Types.{PropertySummary}
use lapor_kos.Session.Types.{SessionUser}
use lapor_kos.Access.{can, is_tenant}
use lapor_kos.Authorization.Capabilities.{Capability}
use lapor_kos.Navigation.{
  NavigationSection, get_navigation, get_required_capability, is_staff_only_path,
}

-- What the hooks give the shell.
pub record Shell : Type 0 where
  pub user : Option SessionUser
  pub is_session_loading : Bool
  pub session_error : Option String
  pub properties : List PropertySummary
  pub active_property : Option PropertySummary
  pub is_property_loading : Bool
  pub pathname : String

abbrev pub tenant : Shell → Bool
tenant s = is_tenant s.user s.active_property

-- `activeProperty && required && !can(required)`
abbrev pub is_denied : Option PropertySummary → Option Capability → Bool
is_denied none required = false
is_denied (some p) none = false
is_denied (some p) (some c) = not (can (some p) c)

-- The effect: where `router.replace` is sent, if anywhere.
unfoldable pub redirect_target : Shell → Option String
redirect_target s =
    if is_none s.user || s.is_session_loading || s.is_property_loading
    then none
    else if tenant s && is_staff_only_path s.pathname
    then some "/"
    else if not (tenant s) && is_denied s.active_property (get_required_capability s.pathname)
    then some "/"
    else none

pub data View : Type 0 where
  spinner session_failure empty_property page : View

abbrev is_empty {ℓ} : {A : Type ℓ} → List A → Bool
is_empty [] = true
is_empty (_ ∷ _) = false

-- `showEmptyProperty`
abbrev show_empty_property : Shell → Bool
show_empty_property s = not (tenant s) && is_empty s.properties && not (s.pathname == "/properties")

unfoldable pub view : Shell → View
view s =
    if s.is_session_loading || s.is_property_loading
    then spinner
    else if is_none s.user || truthy s.session_error
    then session_failure
    else if show_empty_property s
    then empty_property
    else page

-- The links of the sidebar.
pub navigation : Shell → List NavigationSection
navigation s = get_navigation (tenant s) (can s.active_property)
