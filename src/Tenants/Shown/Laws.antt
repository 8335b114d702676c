-- ===== src/Tenants/Shown/Laws.antt =====
-- The numbers on the tabs of the tenants, and the lists that the tabs show.
use mathlib.Core.List.{Perm}
use lapor_kos.Prelude.{
  String, ℕ, ◌≤◌, ◌≡◌, refl, Bool, true, ◌∷◌, [], ◌&&◌, ◌||◌, Option, List, arith, filter, length,
  filter-true, filter_next, length-filter-sort, sort-Perm, subst, sort, sym, ap, ◌∙◌,
}
use lapor_kos.Invitations.Chars.{chars, is_empty, trim}
use lapor_kos.Tenants.{Enhanced}
use lapor_kos.Tenants.Shown.{
  Tab, all, active, expiring, unpaid, missing_docs, Choice, Stats, is_active, is_expiring,
  is_unpaid, is_found, is_before, stats, by_tab, by_search, filtered_and_sorted_tenants,
}

-- The number that stands on a tab.
abbrev pub count_of : Tab → Stats → ℕ
count_of all s = s.all
count_of active s = s.active
count_of expiring s = s.expiring
count_of unpaid s = s.unpaid
count_of missing_docs s = s.missing_docs

abbrev pub is_in_tab : Tab → Enhanced → Bool
is_in_tab all t = true
is_in_tab active t = is_active t
is_in_tab expiring t = is_expiring t
is_in_tab unpaid t = is_unpaid t
is_in_tab missing_docs t = t.is_missing_docs

-- What is asked of a tenant that is shown.
abbrev pub matches : (String → String) → Choice → Enhanced → Bool
matches lower c t =
    is_in_tab c.active_tab t
    && (is_empty (trim (chars c.search_query)) || is_found lower c.search_query t)

by_tab-is_in_tab : (t : Tab) (xs : List Enhanced) → by_tab t xs ≡ filter (is_in_tab t) xs
by_tab-is_in_tab all xs = filter-true xs
by_tab-is_in_tab active xs = refl
by_tab-is_in_tab expiring xs = refl
by_tab-is_in_tab unpaid xs = refl
by_tab-is_in_tab missing_docs xs = refl

count_of-stats : (t : Tab) (xs : List Enhanced) → count_of t (stats xs) ≡ length (by_tab t xs)
unfolding stats
count_of-stats all xs = refl
count_of-stats active xs = refl
count_of-stats expiring xs = refl
count_of-stats unpaid xs = refl
count_of-stats missing_docs xs = refl

filters-matches :
    (lower : String → String) (c : Choice) (xs : List Enhanced)
    → by_search lower c.search_query (by_tab c.active_tab xs) ≡ filter (matches lower c) xs
filters-matches lower c xs =
    filter_next (is_empty (trim (chars c.search_query))) _ _ _ xs (by_tab-is_in_tab c.active_tab xs)

expiring-le-active :
    (xs : List Enhanced) → length (filter is_expiring xs) ≤ length (filter is_active xs)
expiring-le-active [] = omega arith
expiring-le-active (x ∷ xs) = ground (arith, expiring-le-active xs)

length-sort : (p : Enhanced → Enhanced → Bool) (xs : List Enhanced) → length (sort p xs) ≡ length xs
length-sort p xs =
    ap length (filter-true (sort p xs))
    ∙ length-filter-sort p (λ t. true) xs
    ∙ sym (ap length (filter-true xs))

-- The tenants that are shown are those that match the tab and the search, each as often as it is in
-- the list.
pub tenants-Perm :
    (time : String → Option ℕ) (lower : String → String) (le : String → String → Bool) (c : Choice)
    (xs : List Enhanced)
    → Perm (filtered_and_sorted_tenants time lower le c xs) (filter (matches lower c) xs)
unfolding filtered_and_sorted_tenants
tenants-Perm time lower le c xs =
    subst (λ ys. Perm (filtered_and_sorted_tenants time lower le c xs) ys)
      (filters-matches lower c xs) (sort-Perm (is_before time le c.sort_by) _)

-- Where the search is blank, the number on the chosen tab is the number of the tenants that are
-- shown; and of the tenants whose contract expires soon, none is outside those that are active.
pub count_of-shown :
    (time : String → Option ℕ) (lower : String → String) (le : String → String → Bool) (c : Choice)
    (xs : List Enhanced)
    → is_empty (trim (chars c.search_query)) ≡ true
    → (length (filtered_and_sorted_tenants time lower le c xs) ≡ count_of c.active_tab (stats xs))
      × ((stats xs).expiring ≤ (stats xs).active)
unfolding filtered_and_sorted_tenants stats
count_of-shown time lower le c xs blank = (
  rw blank (
      length-sort (is_before time le c.sort_by) (by_tab c.active_tab xs)
      ∙ sym (count_of-stats c.active_tab xs)),
  expiring-le-active xs,
)
