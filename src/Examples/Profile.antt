-- ===== src/Examples/Profile.antt =====
-- The page of a tenant, telephone numbers, and the form of a new room.
use lapor_kos.Prelude.{
  String, ℕ, ◌≡◌, refl, true, false, not, ◌&&◌, ◌||◌, Option, none, some, [], ◌∷◌, ◌≤◌, ◌+◌, ◌-◌,
  ◌==◌, arith, ℤ, pos, suc, if◌then◌else◌,
}
use lapor_kos.Invitations.Chars.{chars}
use lapor_kos.Api.Request.{thrown}
use lapor_kos.Phones.{format_local, format_phone_number}
use lapor_kos.Phones.Laws.{format_phone_number-local}
use lapor_kos.Tenants.Profile.Money.{overflow, amount, money_input}
use lapor_kos.Prelude.Decimal.{show_digits}
use lapor_kos.Tenants.Profile.Figures.{progress, days_remaining}
use lapor_kos.Tenants.Profile.Figures.Laws.{contract_course}
use lapor_kos.Tenants.Profile.Page.{
  ProfileCall, ProfilePage, ProfileForm, EditForm, ExtendForm, extend_contract,
}
use lapor_kos.Tenants.Profile.Submit.{ProfileServer}
use lapor_kos.Tenants.Profile.Submit.Laws.{
  extension, handle, is_open, is_thrown, is_error, handle_sends, extension_of, request,
}

phone_test : format_local 5 (chars "0812-3456-789") ≡ chars "+62-812-3456-789"
unfolding format_local
phone_test = refl

format_phone_number-local_example :
    format_phone_number (chars "62 0812") ≡ format_local 5 (chars "62 0812")
format_phone_number-local_example = format_phone_number-local (chars "62 0812")

course_test : progress 1000 3000 1500 ≡ some 25
unfolding progress
course_test = refl

contract_course_example :
    (p : ℕ) × (q : ℕ) × (progress 1000 3000 1500 ≡ some p)
    × (progress 1000 3000 2900 ≡ some q)
    × (p ≤ q)
    × (q ≤ 100)
    × (days_remaining 3000 2900 ≤ days_remaining 3000 1500)
    × (progress 1000 3000 (1000 - 1500) ≡ some 0)
    × (progress 1000 3000 (3000 + 1500) ≡ some 100)
    × (days_remaining 3000 (3000 + 1500) ≡ 0)
contract_course_example = contract_course 1000 3000 1500 2900 (omega arith) (omega arith)

abbrev form : ProfileForm
form = record { name = "Ani"; phone = ""; room_id = ""; entry_date = ""; rental_duration = 1 }

abbrev edit_form : EditForm
edit_form = record {
  name = "Ani";
  phone = "";
  email = "";
  date_of_birth = "";
  gender = "";
  job = "";
  address = "";
  notes = "";
  emergency_contact_name = "";
  emergency_contact_relation = "";
  emergency_contact_phone = "";
}

-- The digits of a number of any size, with nothing between them.
abbrev plain_locale : ℕ → String
plain_locale n = show_digits (suc n) n

abbrev extend_form : ExtendForm
extend_form = record {
  start_date = "2025-01-01";
  rental_duration = "6";
  monthly_rent = money_input plain_locale (chars "1.500x");
  electricity_bill = [];
  water_bill = [];
  other_bills = [];
  payment_due_day = "5";
  payment_interval = "monthly";
  deposit = [];
  notes = "";
}

abbrev page : ProfilePage
page = record {
  tenant = none;
  rooms = [];
  payments = [];
  is_loading = false;
  is_editing = false;
  is_saving = false;
  is_deleting = false;
  is_extending = false;
  is_checking_out = false;
  show_delete_modal = false;
  show_change_room_modal = false;
  show_extend_modal = true;
  show_checkout_modal = false;
  form_data = form;
  edit_form_data = edit_form;
  extend_data = extend_form;
  toast = none;
  alerts = [];
  path = none;
}

abbrev parse_int : String → Option ℤ
parse_int s = if s == "6" then some (pos 6) else some (pos 5)

abbrev sent : ProfileCall
sent = extend_contract (extension_of parse_int extend_form)

filled : request parse_int extension page ≡ some sent
unfolding money_input amount overflow show_digits
filled = refl

abbrev refusing : ProfileServer
refusing calls q = thrown "Kamar sudah dipesan"

handle_sends_example :
    let (s', calls') = handle parse_int extension refusing [] page in
    (calls' ≡ sent ∷ [])
    × (is_open extension s' ≡ (true && is_thrown (refusing [] sent)))
    × (is_error s'.toast ≡ is_thrown (refusing [] sent))
    × (s'.is_loading ≡ (false || not (is_thrown (refusing [] sent))))
handle_sends_example = handle_sends parse_int extension refusing [] page sent filled
