-- ===== src/Dashboard/Figures.antt =====
-- frontend/src/app/(dashboard)/page.tsx: the numbers of the overview and the rooms' table. Instants
-- are milliseconds since 1970; `time` is the platform's `Date`, `to_locale` its
-- `toLocaleDateString`.
use lapor_kos.Prelude.{
  String, ℕ, ◌-◌, Bool, true, false, not, ◌&&◌, ◌||◌, Option, none, some, List, ◌==◌, filter, find,
  length, ltb, truthy, get_or, optional, map, take, if◌then◌else◌,
}
use lapor_kos.Rooms.Stats.{rate}
use lapor_kos.Tenants.{days_between, has_days, is_within, or_text}
use lapor_kos.Dashboard.{Contract, DashboardRoom, Payment, Complaint, is_active}

pub record Figures : Type 0 where
  pub total_rooms : ℕ
  pub occupied_rooms : ℕ
  pub vacant_rooms : ℕ
  pub total_complaints : ℕ
  pub resolved_complaints : ℕ
  pub occupancy_percent : ℕ
  pub resolution_percent : ℕ

unfoldable pub figures : List DashboardRoom → List Complaint → Figures
figures rooms complaints =
    let total = length rooms in
    let occupied = length (filter (λ r. r.status == "occupied") rooms) in
    let resolved = length (filter (λ c. c.status == "resolved") complaints) in
    record {
      total_rooms = total;
      occupied_rooms = occupied;
      vacant_rooms = total - occupied;
      total_complaints = length complaints;
      resolved_complaints = resolved;
      occupancy_percent = rate occupied total;
      resolution_percent = rate resolved (length complaints);
    }

-- `a < b` of two instants, of which the first may be `NaN`.
abbrev pub is_past : Option ℕ → ℕ → Bool
is_past none now = false
is_past (some t) now = ltb t now

abbrev pub is_overdue : (String → Option ℕ) → ℕ → Payment → Bool
is_overdue time now p =
    if p.status == "overdue"
    then true
    else if p.status == "unpaid" || p.status == "partial"
    then is_past (time p.due_date) now
    else false

-- `overduePaymentsCount`
unfoldable pub overdue_payments_count : (String → Option ℕ) → ℕ → List Payment → ℕ
overdue_payments_count time now payments = length (filter (is_overdue time now) payments)

-- `diffDays`, of an instant of the day as well.
abbrev pub expires_soon : (String → Option ℕ) → ℕ → Contract → Bool
expires_soon time now c =
    let days = optional (λ end. some (days_between now end)) (optional time c.end_date) in
    if not (c.status == "active") || not (truthy c.end_date)
    then false
    else has_days days && is_within 30 days

-- `contractsExpiringSoonCount`
unfoldable pub contracts_expiring_soon_count : (String → Option ℕ) → ℕ → List Contract → ℕ
contracts_expiring_soon_count time now contracts = length (filter (expires_soon time now) contracts)

abbrev pub is_incomplete : Contract → Bool
is_incomplete c =
    not (truthy (optional (λ u. u.ktp_url) c.user))
    || not (truthy (optional (λ u. u.selfie_url) c.user))

-- `incompleteDocsCount`
unfoldable pub incomplete_docs_count : List Contract → ℕ
incomplete_docs_count contracts = length (filter is_incomplete (filter is_active contracts))

-- A row of the rooms' table.
pub record Row : Type 0 where
  pub room : DashboardRoom
  pub tenant_name : String
  pub tenant_phone : String
  pub check_in_date : String

abbrev pub row_of : (String → String) → List Contract → DashboardRoom → Row
row_of to_locale contracts room =
    let contract = find (λ c. c.room_id == room.id && is_active c) contracts in
    let start = optional (λ c. c.start_date) contract in
    let user = optional (λ c. c.user) contract in
    record {
      room = room;
      tenant_name = or_text (optional (λ u. u.name) user) "—";
      tenant_phone = or_text (optional (λ u. u.phone) user) "";
      check_in_date = if truthy start then to_locale (get_or start "") else "Belum ada penghuni";
    }

-- `roomsWithTenants`
unfoldable pub rooms_with_tenants :
    (String → String) → List Contract → List DashboardRoom → List Row
rooms_with_tenants to_locale contracts rooms = map (row_of to_locale contracts) (take 5 rooms)
