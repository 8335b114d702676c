-- ===== src/Navigation/Laws.antt =====
-- The links and the guard agree.
use mathlib.Core.Option
use lapor_kos.Prelude.{
  String, ◌≡◌, refl, ap, inl, inr, Bool, true, false, ◌&&◌, List, [], ◌∷◌, some, arith, find, all,
  map, filter, filter-All, All-map, is_under, is_apart, is_under-is_apart, All, Any, Bool-cases,
}
use lapor_kos.Authorization.Capabilities.{Capability}
use lapor_kos.Navigation.{
  NavigationItem, NavigationSection, tenant_navigation, staff_navigation, staff_path_capabilities,
  is_allowed, keep_allowed, has_items, get_required_capability, is_staff_only_path,
}

-- The paths of a table lie apart, so that their order does not matter.
abbrev is_disjoint : List (String × Capability) → Bool
is_disjoint [] = true
is_disjoint (e ∷ es) = all (λ f. is_apart e.0 f.0) es && is_disjoint es

apart_of_entry :
    (p path : String) (c : Capability) (es : List (String × Capability))
    → all (λ f. is_apart p f.0) es ≡ true
    → Any (λ e. (e.0 ≡ path) × (e.1 ≡ c)) es
    → is_apart p path ≡ true
apart_of_entry p path c [] a m = absurd m
apart_of_entry p path c (e ∷ es) a (inl same) = rw (← same.0) (ground arith)
apart_of_entry p path c (e ∷ es) a (inr m) = apart_of_entry p path c es (ground arith) m

find-is_under :
    (path : String) (c : Capability) (pathname : String) (entries : List (String × Capability))
    → is_disjoint entries ≡ true
    → Any (λ e. (e.0 ≡ path) × (e.1 ≡ c)) entries
    → is_under path pathname ≡ true
    → Option.map (λ e. e.1) (find (λ e. is_under e.0 pathname) entries) ≡ some c
find-is_under path c pathname [] d m h = absurd m
find-is_under path c pathname (e ∷ es) d (inl same) h =
    let here : is_under e.0 pathname ≡ true = rw same.0 h in rw here (ap some same.1)
find-is_under path c pathname (e ∷ es) d (inr m) h =
    let apart = apart_of_entry e.0 path c es (ground arith) m in
    let rest = find-is_under path c pathname es (ground arith) m h in
    elim (Bool-cases (is_under e.0 pathname)) [
      | inl here ↦ absurd (ground (arith, is_under-is_apart e.0 path pathname apart here))
      | inr other ↦ rw other rest
    ]

-- A path at or below one of the table's requires that one's capability, whatever else is listed.
pub get_required_capability-some :
    (path : String) (c : Capability) (pathname : String)
    → Any (λ e. (e.0 ≡ path) × (e.1 ≡ c)) staff_path_capabilities
    → is_under path pathname ≡ true
    → get_required_capability pathname ≡ some c
unfolding get_required_capability
get_required_capability-some path c pathname m h =
    find-is_under path c pathname staff_path_capabilities refl m h

abbrev pub AllItems : (NavigationItem → Type 0) → List NavigationSection → Type 0
AllItems P = All (λ s. All P s.items)

pub AllItems-map :
    {P Q : NavigationItem → Type 0}
    → ((i : NavigationItem) → P i → Q i)
    → (ss : List NavigationSection) → AllItems P ss
    → AllItems Q ss
AllItems-map f = All-map (λ s. All-map f s.items)

-- The filter of the staff's sections keeps their order, and only links that are allowed.
module _ (allowed : Capability → Bool) (P : NavigationItem → Type 0) where
  pub kept_items :
      (ss : List NavigationSection)
      → AllItems P ss
      → AllItems
          (λ i. (is_allowed allowed i ≡ true) × P i)
          (filter has_items (map (keep_allowed allowed) ss))
  kept_items [] h = tt
  kept_items (s ∷ ss) h =
      ground (arith, filter-All (is_allowed allowed) P s.items h.0, kept_items ss h.1)

-- The path of each link of the staff requires just the capability that the link names.
pub staff_links : AllItems (λ i. get_required_capability i.href ≡ i.capability) staff_navigation
unfolding get_required_capability
staff_links = ground arith

-- No link of the tenants leads to a path of the staff.
pub tenant_links : AllItems (λ i. is_staff_only_path i.href ≡ false) tenant_navigation
unfolding is_staff_only_path
tenant_links = ground arith
