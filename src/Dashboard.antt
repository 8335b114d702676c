-- ===== src/Dashboard.antt =====
-- frontend/src/app/(dashboard)/page.tsx: the overview of a property, and what is loaded for it.
-- A collection that the server leaves out counts as empty. The fields that are only shown are left
-- out, as is the markup.
pub mod Figures
pub mod Revenue
pub mod Laws
use lapor_kos.Prelude.{
  String, ℕ, Bool, true, false, not, ◌&&◌, Option, none, some, List, [], ◌∷◌, ◌==◌, filter, map,
  includes, is_none, if◌then◌else◌,
}

pub record DashboardUser : Type 0 where
  pub ktp_url : Option String
  pub selfie_url : Option String
  pub name : Option String
  pub phone : Option String

pub record Contract : Type 0 where
  pub user_id : String
  pub room_id : String
  pub status : String
  pub start_date : Option String
  pub end_date : Option String
  pub user : Option DashboardUser

pub record DashboardRoom : Type 0 where
  pub id : String
  pub status : String

pub record Payment : Type 0 where
  pub status : String
  pub period_month : ℕ
  pub period_year : ℕ
  pub total_paid : ℕ
  pub amount_rent : ℕ
  pub amount_electricity : ℕ
  pub amount_water : ℕ
  pub amount_other : ℕ
  pub due_date : String

pub record Complaint : Type 0 where
  pub status : String

-- The cells of the page that the staff's view is computed of, and the tenant's ones; `P` is what
-- the server tells of a tenant.
pub record Dashboard (P : Type 0) : Type 0 where
  pub tenant_profile : Option P
  pub tenant_payments : List Payment
  pub rooms : List DashboardRoom
  pub tenants : List String
  pub contracts : List Contract
  pub payments : List Payment
  pub complaints : List Complaint
  pub is_loading : Bool

-- What `fetchData` asks the server for.
pub data Plan : Type 0 where
  wait stop ask_tenant ask_staff : Plan

-- The tests at the top of `fetchData`: the role of the user, if there is one, whether the property
-- is still loading, and whether one is active.
unfoldable pub fetch_plan : Option String → Bool → Bool → Plan
fetch_plan none is_property_loading has_property = wait
fetch_plan (some role) is_property_loading has_property =
    if is_property_loading
    then wait
    else if not (role == "tenant") && not has_property
    then stop
    else if role == "tenant"
    then ask_tenant
    else ask_staff

abbrev pub paths : Plan → List String
paths wait = []
paths stop = []
paths ask_tenant = "/api/tenants/me" ∷ "/api/payments/my" ∷ []
paths ask_staff = "/api/rooms" ∷ "/api/contracts" ∷ "/api/payments" ∷ "/api/complaints" ∷ []

-- `Array.from(new Set(ids))`, which keeps the first of each.
unfoldable pub unique : List String → List String
unique [] = []
unique (x ∷ xs) = x ∷ filter (λ y. not (y == x)) (unique xs)

abbrev pub is_active : Contract → Bool
is_active c = c.status == "active"

-- The cells once the staff's four answers are there.
unfoldable pub staff_loaded :
    {P : Type 0}
    → List DashboardRoom
    → List Contract
    → List Payment
    → List Complaint
    → Dashboard P
    → Dashboard P
staff_loaded rooms contracts payments complaints d = record d {
  rooms = rooms;
  contracts = contracts;
  payments = payments;
  complaints = complaints;
  tenants = unique (map (λ c. c.user_id) (filter is_active contracts));
  is_loading = false;
}

unfoldable pub tenant_loaded : {P : Type 0} → P → List Payment → Dashboard P → Dashboard P
tenant_loaded profile payments d = record d {
  tenant_profile = some profile;
  tenant_payments = payments;
  is_loading = false;
}

-- One call of several fails, and none of the answers is taken.
abbrev pub fetch_failed : {P : Type 0} → Dashboard P → Dashboard P
fetch_failed d = record d { is_loading = false }
