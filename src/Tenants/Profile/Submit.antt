-- ===== src/Tenants/Profile/Submit.antt =====
-- frontend/src/app/(dashboard)/tenants/[id]/page.tsx: what the page sends. `parse_int` is
-- `parseInt(text, 10)`, with `none` for `NaN`. The handlers start `fetchData` and do not await it. The handler
-- of a change of the room is left out: nothing calls it, the dialog is that of the room transfers.
pub mod Laws
use lapor_kos.Prelude.{
  String, ℕ, zero, Bool, true, false, Option, none, some, List, [], ◌∷◌, ◌==◌, show, optional, ℤ,
  pos, if◌then◌else◌,
}
use lapor_kos.Invitations.Chars.{is_empty}
use lapor_kos.Api.Request.{Outcome, returned, thrown}
use lapor_kos.Api.Action.{Server, ask}
use lapor_kos.Forms.{is_blank}
use lapor_kos.Tenants.{or_text}
use lapor_kos.Tenants.Profile.{ProfileTenant}
use lapor_kos.Tenants.Profile.Money.{amount, amount_or_zero}
use lapor_kos.Tenants.Profile.Page.{
  ExtendPayload, ProfileCall, delete_tenant, checkout_tenant, put_tenant, extend_contract,
  ProfileForm, EditForm, ExtendForm, success, error, ProfilePage, day_of, duration_of, start_of,
  fetch_start,
}

pub data Answer : Type 0 where
  done : Answer

abbrev pub ProfileServer : Type 0
ProfileServer = Server ProfileCall Answer

abbrev pub ProfileHandler : Type 0
ProfileHandler = ProfileServer → List ProfileCall → ProfilePage → ProfilePage × List ProfileCall

abbrev pub alert : String → ProfilePage → ProfilePage
alert message s = record s { alerts = message ∷ s.alerts }

abbrev deleted : Outcome Answer → ProfilePage → ProfilePage
deleted (returned a) s = record s { path = some "/tenants" }
deleted (thrown m) s = record s {
  toast = some (error m);
  is_deleting = false;
  show_delete_modal = false;
}

-- `handleDelete`
unfoldable pub handle_delete : ProfileHandler
handle_delete server calls s =
    let (o, calls') = ask delete_tenant server calls in
    (deleted o (record s { is_deleting = true }), calls')

abbrev saved : Outcome Answer → ProfilePage → ProfilePage
saved (returned a) s = record (fetch_start s) {
  is_editing = false;
  toast = some (success "Profil berhasil diperbarui!");
  is_saving = false;
}
saved (thrown m) s = record s { toast = some (error m); is_saving = false }

abbrev save : List (String × String) → ProfileHandler
save fields server calls s =
    let (o, calls') = ask (put_tenant fields) server calls in (saved o s, calls')

abbrev pub profile_fields : ProfileForm → List (String × String)
profile_fields f =
    ("name", f.name)
    ∷ ("phone", f.phone)
    ∷ ("room_id", f.room_id)
    ∷ ("entry_date", f.entry_date)
    ∷ ("rental_duration", show f.rental_duration)
    ∷ []

-- `handleSubmit`
unfoldable pub handle_submit : ProfileHandler
handle_submit server calls s =
    if is_blank s.form_data.name
    then (alert "Nama wajib diisi" s, calls)
    else if is_blank s.form_data.phone
    then (alert "Nomor HP wajib diisi" s, calls)
    else save (profile_fields s.form_data) server calls s

abbrev pub edit_fields : Option ProfileTenant → EditForm → List (String × String)
edit_fields t f =
    ("name", f.name)
    ∷ ("phone", f.phone)
    ∷ ("room_id", or_text (optional (λ x. optional (λ r. some r.id) x.room) t) "")
    ∷ ("entry_date", day_of (optional start_of t))
    ∷ ("rental_duration", show (duration_of (optional (λ x. x.contract) t)))
    ∷ ("date_of_birth", f.date_of_birth)
    ∷ ("gender", f.gender)
    ∷ ("job", f.job)
    ∷ ("address", f.address)
    ∷ ("notes", f.notes)
    ∷ ("emergency_contact_name", f.emergency_contact_name)
    ∷ ("emergency_contact_relation", f.emergency_contact_relation)
    ∷ ("emergency_contact_phone", f.emergency_contact_phone)
    ∷ []

-- `handleEditProfileSubmit`
unfoldable pub handle_edit_profile_submit : ProfileHandler
handle_edit_profile_submit server calls s =
    if is_blank s.edit_form_data.name
    then (alert "Nama wajib diisi" s, calls)
    else if is_blank s.edit_form_data.phone
    then (alert "Nomor HP wajib diisi" s, calls)
    else save (edit_fields s.tenant s.edit_form_data) server calls s

-- `parseInt(text, 10) || 1`
abbrev pub int_or_one : Option ℤ → ℤ
int_or_one none = pos 1
int_or_one (some (pos zero)) = pos 1
int_or_one (some n) = n

abbrev pub extend_payload : (String → Option ℤ) → ExtendForm → ExtendPayload
extend_payload parse_int f = record {
  start_date = f.start_date;
  rental_duration = parse_int f.rental_duration;
  monthly_rent = amount f.monthly_rent;
  electricity_bill = amount_or_zero f.electricity_bill;
  water_bill = amount_or_zero f.water_bill;
  other_bills = amount_or_zero f.other_bills;
  payment_interval = f.payment_interval;
  deposit = amount_or_zero f.deposit;
  payment_due_day = int_or_one (parse_int f.payment_due_day);
  notes = f.notes;
}

abbrev pub extended : Outcome Answer → ProfilePage → ProfilePage
extended (returned a) s = record (fetch_start s) {
  show_extend_modal = false;
  toast = some (success "Kontrak berhasil diperpanjang dan tagihan baru dibuat!");
  is_extending = false;
}
extended (thrown m) s = record s { toast = some (error m); is_extending = false }

-- `handleExtendContractSubmit`
unfoldable pub handle_extend_contract_submit : (String → Option ℤ) → ProfileHandler
handle_extend_contract_submit parse_int server calls s =
    let f = s.extend_data in
    if f.start_date == ""
    then (alert "Tanggal mulai wajib diisi" s, calls)
    else if f.rental_duration == ""
    then (alert "Durasi wajib diisi" s, calls)
    else if is_empty f.monthly_rent
    then (alert "Harga sewa wajib diisi" s, calls)
    else let (o, calls') = ask (extend_contract (extend_payload parse_int f)) server calls in
      (extended o s, calls')

abbrev pub checked_out : Outcome Answer → ProfilePage → ProfilePage
checked_out (returned a) s = record (fetch_start s) {
  show_checkout_modal = false;
  toast = some (success "Penghuni berhasil checkout!");
  is_checking_out = false;
}
checked_out (thrown m) s = record s { toast = some (error m); is_checking_out = false }

-- `handleCheckoutSubmit`
unfoldable pub handle_checkout_submit : ProfileHandler
handle_checkout_submit server calls s =
    let (o, calls') = ask checkout_tenant server calls in (checked_out o s, calls')
