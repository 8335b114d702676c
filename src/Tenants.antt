-- ===== src/Tenants.antt =====
-- frontend/src/app/(dashboard)/tenants/page.tsx: the tenants of the property, one of each contract,
-- and what is computed of them. Instants are milliseconds since 1970; `time` is the platform's
-- `Date`, with `none` for a date that is not valid, and `today` is the last midnight.
-- `toLowerCase` is a parameter. The colours, the
-- icons, the floor and the age of a contract are left out, and so is the amount that was paid last.
pub mod Shown
pub mod Profile
pub mod Laws
use Prim.Native.Char.{code}
use lapor_kos.Prelude.{
  String, ℕ, ◌+◌, ◌-◌, ◌/◌, Bool, optional, false, not, ◌||◌, Option, none, some, List, ◌==◌, ◌^^◌,
  ltb, leb_int, truthy, or_else, get_or, map, switch, [], ◌∷◌, ℤ, pos, neg, is_nonnegative,
  if◌then◌else◌,
}
use lapor_kos.Invitations.Chars.{is_space}

-- What the page reads of an answer of the server.
pub record User : Type 0 where
  pub id : Option String
  pub name : Option String
  pub phone : Option String
  pub email : Option String
  pub ktp_url : Option String
  pub selfie_url : Option String

pub record RoomOfTenant : Type 0 where
  pub id : String
  pub room_number : String
  pub price_per_month : ℕ

pub record ContractAnswer : Type 0 where
  pub id : String
  pub user : Option User
  pub room_id : String
  pub room : Option RoomOfTenant
  pub start_date : String
  pub end_date : String
  pub rental_duration : ℕ
  pub status : String
  pub latest_payment_status : Option String
  pub created_at : String

pub record TenantContract : Type 0 where
  pub start_date : String
  pub end_date : String
  pub rental_duration : ℕ
  pub status : String
  pub latest_payment_status : Option String

pub record Tenant : Type 0 where
  pub id : String
  pub name : String
  pub phone : String
  pub email : String
  pub room_id : String
  pub ktp_url : Option String
  pub selfie_url : Option String
  pub contract_id : String
  pub contract : Option TenantContract
  pub created_at : String
  pub room : Option RoomOfTenant

-- `.replace(/\s/g, '')`
unfoldable pub remove_spaces : String → String
remove_spaces String.[] = ""
remove_spaces (String.◌∷◌ c s) =
    let rest = remove_spaces s in if is_space (code c) then rest else String.◌∷◌ c rest

-- The address that stands in for a missing one.
abbrev pub made_email : (String → String) → Option String → String
made_email lower name =
    if truthy name then remove_spaces (lower (get_or name "")) ^^ "@gmail.com" else "-"

-- `a || d` of a text that may be missing, and a text.
abbrev pub or_text : Option String → String → String
or_text a d = get_or (or_else a (some d)) d

-- The mapping of `fetchData`.
unfoldable pub to_tenant : (String → String) → ContractAnswer → Tenant
to_tenant lower c = record {
  id = or_text (optional (λ u. u.id) c.user) "";
  name = or_text (optional (λ u. u.name) c.user) "Unknown";
  phone = or_text (optional (λ u. u.phone) c.user) "-";
  email =
      or_text (optional (λ u. u.email) c.user) (made_email lower (optional (λ u. u.name) c.user));
  room_id = c.room_id;
  ktp_url = optional (λ u. u.ktp_url) c.user;
  selfie_url = optional (λ u. u.selfie_url) c.user;
  contract_id = c.id;
  contract = some (record {
    start_date = c.start_date;
    end_date = c.end_date;
    rental_duration = c.rental_duration;
    status = c.status;
    latest_payment_status = c.latest_payment_status;
  });
  created_at = c.created_at;
  room = c.room;
}

-- `contractsData || []`, mapped.
unfoldable pub mapped_tenants : (String → String) → Option (List ContractAnswer) → List Tenant
mapped_tenants lower contracts_data = map (to_tenant lower) (get_or contracts_data [])

unfoldable pub get_payment_status_label : Option String → String
get_payment_status_label status =
    if not (truthy status)
    then "Lunas"
    else switch (get_or status "")
        (("paid", "Lunas")
          ∷ ("pending", "Menunggu Verifikasi")
          ∷ ("partial", "Bayar Sebagian")
          ∷ ("overdue", "Terlambat")
          ∷ ("unpaid", "Belum Bayar")
          ∷ [])
        "Belum Bayar"

-- The milliseconds of a day.
abbrev pub day : ℕ
day = 86400000

-- `Math.ceil((end - today) / day)`
unfoldable pub days_between : ℕ → ℕ → ℤ
days_between today end =
    if ltb end today then neg ((today - end) / day) else pos ((end - today + (day - 1)) / day)

-- `daysUntilExpiry`, where `NaN` is `none`.
unfoldable pub days_until_expiry : (String → Option ℕ) → ℕ → Tenant → Option ℤ
unfolding days_between
days_until_expiry time today t =
    let end_date = optional (λ c. some c.end_date) t.contract in
    elim (time (or_text end_date t.created_at)) [
      | none ↦ none
      | some end ↦ some (days_between today end)
    ]

-- `days >= 0`
abbrev pub has_days : Option ℤ → Bool
has_days none = false
has_days (some d) = is_nonnegative d

-- `days <= n`
abbrev pub is_within : ℕ → Option ℤ → Bool
is_within n none = false
is_within n (some d) = leb_int d (pos n)

-- `days < 0`
abbrev pub is_over : Option ℤ → Bool
is_over none = false
is_over (some d) = not (is_nonnegative d)

abbrev pub contract_status : Option ℤ → String
contract_status days =
    if is_over days then "Kadaluarsa" else if is_within 30 days then "Segera Habis" else "Aktif"

-- What `enhancedTenants` adds to a tenant.
pub record Enhanced : Type 0 where
  pub tenant : Tenant
  pub days : Option ℤ
  pub status : String
  pub payment_status : String
  pub is_missing_docs : Bool

unfoldable pub enhance : (String → Option ℕ) → ℕ → Tenant → Enhanced
enhance time today t =
    let days = days_until_expiry time today t in
    let paid = optional (λ c. c.latest_payment_status) t.contract in
    record {
      tenant = t;
      days = days;
      status = contract_status days;
      payment_status = get_payment_status_label paid;
      is_missing_docs = not (truthy t.ktp_url) || not (truthy t.selfie_url);
    }

-- `enhancedTenants`
unfoldable pub enhanced_tenants : (String → Option ℕ) → ℕ → List Tenant → List Enhanced
unfolding enhance
enhanced_tenants time today tenants = map (enhance time today) tenants
