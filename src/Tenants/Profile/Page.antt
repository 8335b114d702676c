-- ===== src/Tenants/Profile/Page.antt =====
-- frontend/src/app/(dashboard)/tenants/[id]/page.tsx: what the page keeps, its calls and what it
-- loads. A form that is filled in is sent as pairs of a key and a text. Of the toast what it shows
-- is here, and the timer that takes it away.
use Prim.Native.Char.{code}
use lapor_kos.Prelude.{
  String, ℕ, Bool, true, false, Option, none, some, List, [], ◌∷◌, ◌^^◌, eqb, show, get_or,
  optional, truthy, ℤ, if◌then◌else◌,
}
use lapor_kos.Invitations.Chars.{Chars, chars}
use lapor_kos.Calls.{Call, call, with_method, with_body}
use lapor_kos.Calls.Payments.{with_form}
use lapor_kos.Tenants.{or_text}
use lapor_kos.Tenants.Profile.Money.{Number}
use lapor_kos.Tenants.Profile.{ProfileTenant, ProfileContract, ProfilePayment, ProfileRoom}

pub record ExtendPayload : Type 0 where
  pub start_date : String
  pub rental_duration : Option ℤ
  pub monthly_rent : Number
  pub electricity_bill : Number
  pub water_bill : Number
  pub other_bills : Number
  pub payment_interval : String
  pub deposit : Number
  pub payment_due_day : ℤ
  pub notes : String

pub data ProfileCall : Type 0 where
  get_tenant get_rooms get_payments delete_tenant checkout_tenant : ProfileCall
  put_tenant : (fields : List (String × String)) → ProfileCall
  extend_contract : (payload : ExtendPayload) → ProfileCall

-- The calls as they are handed to `apiFetch`; `stringify` is
-- `JSON.stringify`.
module _ (stringify : ExtendPayload → String) (id : String) where
  unfoldable pub profile_call : ProfileCall → Call
  profile_call get_tenant = call ("/api/tenants/" ^^ id)
  profile_call get_rooms = call "/api/rooms"
  profile_call get_payments = call ("/api/payments?user_id=" ^^ id)
  profile_call delete_tenant = with_method "DELETE" (call ("/api/tenants/" ^^ id))
  profile_call checkout_tenant = with_method "POST" (call ("/api/tenants/" ^^ id ^^ "/checkout"))
  profile_call (put_tenant fields) = with_form (with_method "PUT" (call ("/api/tenants/" ^^ id)))
  profile_call (extend_contract payload) =
      with_body (stringify payload)
        (with_method "POST" (call ("/api/tenants/" ^^ id ^^ "/extend-contract")))

pub record ProfileForm : Type 0 where
  pub name : String
  pub phone : String
  pub room_id : String
  pub entry_date : String
  pub rental_duration : ℕ

pub record EditForm : Type 0 where
  pub name : String
  pub phone : String
  pub email : String
  pub date_of_birth : String
  pub gender : String
  pub job : String
  pub address : String
  pub notes : String
  pub emergency_contact_name : String
  pub emergency_contact_relation : String
  pub emergency_contact_phone : String

pub record ExtendForm : Type 0 where
  pub start_date : String
  pub rental_duration : String
  pub monthly_rent : Chars
  pub electricity_bill : Chars
  pub water_bill : Chars
  pub other_bills : Chars
  pub payment_due_day : String
  pub payment_interval : String
  pub deposit : Chars
  pub notes : String

pub data Toast : Type 0 where
  success error : (message : String) → Toast

pub record ProfilePage : Type 0 where
  pub tenant : Option ProfileTenant
  pub rooms : List ProfileRoom
  pub payments : List ProfilePayment
  pub is_loading : Bool
  pub is_editing : Bool
  pub is_saving : Bool
  pub is_deleting : Bool
  pub is_extending : Bool
  pub is_checking_out : Bool
  pub show_delete_modal : Bool
  pub show_change_room_modal : Bool
  pub show_extend_modal : Bool
  pub show_checkout_modal : Bool
  pub form_data : ProfileForm
  pub edit_form_data : EditForm
  pub extend_data : ExtendForm
  pub toast : Option Toast
  pub alerts : List String
  pub path : Option String

-- `s.split('T')[0]`
abbrev pub before_t : String → String
before_t String.[] = ""
before_t (String.◌∷◌ c s) =
    let rest = before_t s in if eqb (code c) b'T' then "" else String.◌∷◌ c rest

-- `date ? date.split('T')[0] : ''`
abbrev pub day_of : Option String → String
day_of date = if truthy date then before_t (get_or date "") else ""

-- `contract?.rental_duration || 1`
abbrev pub duration_of : Option ProfileContract → ℕ
duration_of none = 1
duration_of (some c) = if eqb c.rental_duration 0 then 1 else c.rental_duration

abbrev pub start_of : ProfileTenant → Option String
start_of t = optional (λ c. c.start_date) t.contract

abbrev pub form_of : ProfileTenant → ProfileForm
form_of t = record {
  name = t.name;
  phone = t.phone;
  room_id = or_text t.room_id "";
  entry_date = day_of (start_of t);
  rental_duration = duration_of t.contract;
}

abbrev pub edit_form_of : ProfileTenant → EditForm
edit_form_of t = record {
  name = t.name;
  phone = t.phone;
  email = or_text t.email "";
  date_of_birth = day_of t.date_of_birth;
  gender = or_text t.gender "";
  job = or_text t.job "";
  address = or_text t.address "";
  notes = or_text t.notes "";
  emergency_contact_name = or_text t.emergency_contact_name "";
  emergency_contact_relation = or_text t.emergency_contact_relation "";
  emergency_contact_phone = or_text t.emergency_contact_phone "";
}

-- `String(monthly_rent || '')`
abbrev pub rent_text : ℕ → Chars
rent_text n = if eqb n 0 then [] else chars (show n)

abbrev pub extended_from : Option ProfileContract → ExtendForm → ExtendForm
extended_from none f = f
extended_from (some c) f =
    if truthy c.end_date
    then record f {
      start_date = before_t (get_or c.end_date "");
      monthly_rent = rent_text c.monthly_rent;
    }
    else f

-- `fetchData` before its `await`, with the three answers, and where one of the calls throws.
abbrev pub fetch_start : ProfilePage → ProfilePage
fetch_start s = record s { is_loading = true }

unfoldable pub fetch_loaded :
    ProfileTenant → List ProfileRoom → List ProfilePayment → ProfilePage → ProfilePage
fetch_loaded t rooms payments s = record s {
  tenant = some t;
  rooms = rooms;
  payments = payments;
  form_data = form_of t;
  edit_form_data = edit_form_of t;
  extend_data = extended_from t.contract s.extend_data;
  is_loading = false;
}

unfoldable pub fetch_failed : String → ProfilePage → ProfilePage
fetch_failed message s = record s {
  alerts = or_text (some message) "Gagal memuat detail penghuni" ∷ s.alerts;
  path = some "/tenants";
  is_loading = false;
}

-- The timer of `showToast`.
unfoldable pub hide_toast : ProfilePage → ProfilePage
hide_toast s = record s { toast = none }
