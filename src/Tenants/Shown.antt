-- ===== src/Tenants/Shown.antt =====
-- frontend/src/app/(dashboard)/tenants/page.tsx: the numbers on the tabs, and the tenants that are
-- shown. `toLowerCase` and `localeCompare` are parameters, as they are of the rooms' list.
pub mod Laws
use lapor_kos.Prelude.{
  String, ℕ, Bool, true, not, ◌&&◌, ◌||◌, Option, none, some, List, ◌==◌, leb, leb_int, filter,
  length, sort, if◌then◌else◌, ℤ,
}
use lapor_kos.Invitations.Chars.{chars, is_empty, trim}
use lapor_kos.Rooms.Shown.{contains}
use lapor_kos.Tenants.{Enhanced, RoomOfTenant, has_days, is_within}

pub data Tab : Type 0 where
  all active expiring unpaid missing_docs : Tab

pub data SortBy : Type 0 where
  newest name_asc closest_expiry : SortBy

-- What is chosen above the list.
pub record Choice : Type 0 where
  pub active_tab : Tab
  pub search_query : String
  pub sort_by : SortBy

pub record Stats : Type 0 where
  pub all : ℕ
  pub active : ℕ
  pub expiring : ℕ
  pub unpaid : ℕ
  pub missing_docs : ℕ

abbrev pub is_active : Enhanced → Bool
is_active t = has_days t.days

abbrev pub is_expiring : Enhanced → Bool
is_expiring t = has_days t.days && is_within 30 t.days

abbrev pub is_unpaid : Enhanced → Bool
is_unpaid t = t.payment_status == "Belum Bayar" || t.payment_status == "Terlambat"

unfoldable pub stats : List Enhanced → Stats
stats tenants = record {
  all = length tenants;
  active = length (filter is_active tenants);
  expiring = length (filter is_expiring tenants);
  unpaid = length (filter is_unpaid tenants);
  missing_docs = length (filter (λ t. t.is_missing_docs) tenants);
}

abbrev pub by_tab : Tab → List Enhanced → List Enhanced
by_tab all tenants = tenants
by_tab active tenants = filter is_active tenants
by_tab expiring tenants = filter is_expiring tenants
by_tab unpaid tenants = filter is_unpaid tenants
by_tab missing_docs tenants = filter (λ t. t.is_missing_docs) tenants

abbrev pub number_contains : (String → String) → String → Option RoomOfTenant → Bool
number_contains lower q none = Bool.false
number_contains lower q (some r) = contains (lower r.room_number) q

abbrev pub is_found : (String → String) → String → Enhanced → Bool
is_found lower query t =
    let q = lower query in
    contains (lower t.tenant.name) q
    || number_contains lower q t.tenant.room
    || contains t.tenant.phone q

abbrev pub by_search : (String → String) → String → List Enhanced → List Enhanced
by_search lower query tenants =
    if not (is_empty (trim (chars query))) then filter (is_found lower query) tenants else tenants

-- A comparison with `NaN` puts neither first, which `sort` takes for equal.
abbrev pub comes_first {ℓ} : {A : Type ℓ} → (A → A → Bool) → Option A → Option A → Bool
comes_first le none b = true
comes_first le (some a) none = true
comes_first le (some a) (some b) = le a b

-- The comparison puts `a` before `b`, or takes them for equal.
abbrev pub is_before :
    (String → Option ℕ) → (String → String → Bool) → SortBy → Enhanced → Enhanced → Bool
is_before time le newest a b = comes_first leb (time b.tenant.created_at) (time a.tenant.created_at)
is_before time le name_asc a b = le a.tenant.name b.tenant.name
is_before time le closest_expiry a b = comes_first leb_int a.days b.days

-- `filteredAndSortedTenants`
unfoldable pub filtered_and_sorted_tenants :
    (String → Option ℕ)
    → (String → String)
    → (String → String → Bool)
    → Choice
    → List Enhanced
    → List Enhanced
filtered_and_sorted_tenants time lower le c tenants =
    sort (is_before time le c.sort_by)
      (by_search lower c.search_query (by_tab c.active_tab tenants))
