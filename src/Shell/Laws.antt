-- ===== src/Shell/Laws.antt =====
-- Whom the shell lets see a page, and that its own links lead to pages that it shows.
use lapor_kos.Prelude.{
  String, ◌≡◌, refl, ◌⊎◌, inl, inr, true, false, Option, none, some, arith, Bool-cases, is_none,
}
use lapor_kos.Authorization.Capabilities.{Capability}
use lapor_kos.Properties.Types.{PropertySummary}
use lapor_kos.Access.{can}
use lapor_kos.Navigation.{
  NavigationItem, tenant_navigation, staff_navigation, allows, is_allowed, get_navigation,
  get_required_capability, is_staff_only_path,
}
use lapor_kos.Navigation.Laws.{AllItems, AllItems-map, kept_items, staff_links, tenant_links}
use lapor_kos.Shell.{Shell, tenant, is_denied, redirect_target, page, view, navigation}

-- Where the shell shows the page and redirects nobody: the user is known, a tenant is on no
-- path of the staff, and anyone else with an active property has the capability that the path
-- requires.
pub page_allowed :
    (s : Shell)
    → view s ≡ page
    → redirect_target s ≡ none
    → (is_none s.user ≡ false)
      × (((tenant s ≡ true) × (is_staff_only_path s.pathname ≡ false))
          ⊎ ((tenant s ≡ false)
              × (is_denied s.active_property (get_required_capability s.pathname) ≡ false)))
unfolding view redirect_target
page_allowed s v r = ground arith

link_open :
    (property : Option PropertySummary) (required : Option Capability)
    → allows (can property) required ≡ true
    → is_denied property required ≡ false
link_open none required h = refl
link_open (some p) none h = refl
link_open (some p) (some c) h = ground arith

module _ (s : Shell) where
  abbrev at : String → Shell
  at href = record s { pathname = href }

  tenant_stays :
      (i : NavigationItem)
      → tenant s ≡ true
      → is_staff_only_path i.href ≡ false
      → redirect_target (at i.href) ≡ none
  unfolding redirect_target
  tenant_stays i t h = ground arith

  staff_stays :
      (i : NavigationItem)
      → tenant s ≡ false
      → (is_allowed (can s.active_property) i ≡ true)
        × (get_required_capability i.href ≡ i.capability)
      → redirect_target (at i.href) ≡ none
  unfolding redirect_target
  staff_stays i t h =
      ground (arith, link_open s.active_property (get_required_capability i.href), h.1)

-- No link of the sidebar is one that the shell sends the user away from.
pub navigation-stays :
    (s : Shell)
    → AllItems (λ i. redirect_target (record s { pathname = i.href }) ≡ none) (navigation s)
unfolding navigation get_navigation
navigation-stays s = elim (Bool-cases (tenant s)) [
  | inl t ↦ rw t (AllItems-map (λ i. tenant_stays s i t) tenant_navigation tenant_links)
  | inr t ↦ rw t (
      AllItems-map (λ i. staff_stays s i t) (get_navigation false (can s.active_property))
        (kept_items (can s.active_property) (λ i. get_required_capability i.href ≡ i.capability)
          staff_navigation staff_links))
]
