-- ===== src/Rooms/Wizard/Submission.antt =====
-- frontend/src/app/(dashboard)/rooms/add/page.tsx: the room that the form is opened with, and what is
-- sent of the form, as pairs of a key and a text. `encode` is `toString` of `URLSearchParams`. The
-- files that are chosen are not among what the source sends.
pub mod Laws
use Prim.Native.Char.{code}
use lapor_kos.Prelude.{
  String, ℕ, Bool, true, false, Option, none, some, List, [], ◌∷◌, ◌++◌, ◌==◌, ◌^^◌, eqb, ltb, ◌*◌,
  optional, truthy, get_or, if◌then◌else◌,
}
use lapor_kos.Invitations.Chars.{Chars, chars}
use lapor_kos.Api.Request.{Outcome, returned, thrown}
use lapor_kos.Rooms.Shown.{contains}
use lapor_kos.Rooms.Csv.{join}
use lapor_kos.Rooms.Dialog.{split, tidy}
use lapor_kos.Tenants.{or_text}
use lapor_kos.Rooms.Wizard.{RoomData, TenantData, ContractData, Wizard, validate_step}

-- A room that exists, as the server answers.
pub record LoadedRoom : Type 0 where
  pub id : String
  pub room_number : Option String
  pub price_per_month : ℕ
  pub description : Option String
  pub type : Option String
  pub floor : Option String

-- The page around the form. A step that is called for by an alert and a path is only recorded.
pub record AddRoom : Type 0 where
  pub wizard : Wizard
  pub draft_id : Option String
  pub is_submitting : Bool
  pub alerts : List String
  pub path : Option String
  pub keeps_draft : Bool

-- `fetchRoomDetails`, with its answer; `locale` is `toLocaleString('id-ID')`.
unfoldable pub room_loaded : (ℕ → String) → LoadedRoom → AddRoom → AddRoom
room_loaded locale r s = record s {
  draft_id = some r.id;
  wizard = record s.wizard {
    current_step = 2;
    room_data = record {
      room_number = or_text r.room_number "";
      price_per_month = if eqb r.price_per_month 0 then "" else locale r.price_per_month;
      description = or_text r.description "";
      type = or_text r.type "";
      status = "occupied";
      floor = or_text r.floor "";
    };
  };
}

-- `text.replace(/\./g, '')`
unfoldable pub remove_dots : String → String
remove_dots String.[] = ""
remove_dots (String.◌∷◌ c s) =
    let rest = remove_dots s in if eqb (code c) b'.' then rest else String.◌∷◌ c rest

-- `text.replace(/\./g, '') || '0'`
abbrev pub bill_text : String → String
bill_text text = or_text (some (remove_dots text)) "0"

-- `cleanDescription`
abbrev pub clean_description : String → Chars
clean_description description = join (b',' ∷ b' ' ∷ []) (tidy (split (chars description)))

-- A value of the form: a text that is typed, or the facilities that are put together again.
pub data Value : Type 0 where
  typed : String → Value
  facilities : Chars → Value

abbrev pub FormFields : Type 0
FormFields = List (String × Value)

abbrev pub room_fields : Bool → Option String → RoomData → FormFields
room_fields is_draft draft_id r =
    ("room_number", typed r.room_number)
    ∷ ("price_per_month", typed (remove_dots r.price_per_month))
    ∷ ("description", facilities (clean_description r.description))
    ∷ ("status", typed r.status)
    ∷ ("type", typed r.type)
    ∷ ("floor", typed r.floor)
    ∷ ("is_draft", typed (if is_draft then "true" else "false"))
    ∷ (if truthy draft_id then ("room_id", typed (get_or draft_id "")) ∷ [] else [])

abbrev pub tenant_fields : TenantData → FormFields
tenant_fields t =
    ("name", typed t.name)
    ∷ ("phone", typed t.phone)
    ∷ ("email", typed t.email)
    ∷ ("date_of_birth", typed t.date_of_birth)
    ∷ ("gender", typed t.gender)
    ∷ ("job", typed t.job)
    ∷ ("emergency_contact_phone", typed t.emergency_contact_phone)
    ∷ ("emergency_contact_relation", typed t.emergency_contact_relation)
    ∷ ("emergency_contact_name", typed t.emergency_contact_name)
    ∷ []

abbrev pub contract_fields : ContractData → FormFields
contract_fields c =
    ("entry_date", typed c.entry_date)
    ∷ ("rental_duration", typed c.rental_duration)
    ∷ ("electricity_bill", typed (bill_text c.electricity_bill))
    ∷ ("water_bill", typed (bill_text c.water_bill))
    ∷ ("other_bills", typed (bill_text c.other_bills))
    ∷ ("payment_due_day", typed (or_text (some c.payment_due_day) "1"))
    ∷ ("payment_interval", typed c.payment_interval)
    ∷ ("deposit", typed (bill_text c.deposit))
    ∷ ("notes", typed c.notes)
    ∷ []

-- What `submitToServer` sends.
unfoldable pub form_fields : Bool → AddRoom → FormFields
form_fields is_draft s =
    room_fields is_draft s.draft_id s.wizard.room_data
    ++ (tenant_fields s.wizard.tenant_data ++ contract_fields s.wizard.contract_data)

-- `message.includes('activate their account through an invitation')`
abbrev pub asks_invitation : String → Bool
asks_invitation message = contains message "activate their account through an invitation"

abbrev pub invitation_params : TenantData → List (String × String)
invitation_params t = ("name", t.name) ∷ ("email", t.email) ∷ ("phone", t.phone) ∷ []

-- How the submission ends; the answer is the id of the room, if it has one.
abbrev pub submitted :
    (List (String × String) → String) → Bool → Outcome (Option String) → AddRoom → AddRoom
submitted encode true (returned room_id) s = record s {
  draft_id = if truthy room_id then room_id else s.draft_id;
  alerts = "Draft berhasil disimpan ke database!" ∷ s.alerts;
  path = some "/rooms";
  is_submitting = false;
}
submitted encode false (returned room_id) s = record s {
  keeps_draft = false;
  path = some "/rooms";
  is_submitting = false;
}
submitted encode is_draft (thrown m) s =
    let message = or_text (some m) "Terjadi kesalahan saat menyimpan data" in
    if asks_invitation message
    then record s {
      alerts =
          "Calon penghuni harus mengaktifkan akun melalui undangan terlebih dahulu. Anda akan diarahkan ke halaman undangan."
          ∷ s.alerts;
      path = some ("/tenants/invitations?" ^^ encode (invitation_params s.wizard.tenant_data));
      is_submitting = false;
    }
    else record s { alerts = message ∷ s.alerts; is_submitting = false }

-- The server, and what is sent with the page that is left.
module _ (encode : List (String × String) → String)
    (server : FormFields → Outcome (Option String)) where
  -- `submitToServer`
  unfoldable pub submit_to_server : Bool → AddRoom → AddRoom × List FormFields
  submit_to_server is_draft s =
      let fields = form_fields is_draft s in
      (submitted encode is_draft (server fields) s, fields ∷ [])

  -- `saveDraft`
  unfoldable pub save_draft : AddRoom → AddRoom × List FormFields
  unfolding submit_to_server
  save_draft s =
      if validate_step s.wizard.current_step s.wizard then submit_to_server true s else (s, [])

  -- `handleSubmit`
  unfoldable pub handle_submit : AddRoom → AddRoom × List FormFields
  unfolding submit_to_server
  handle_submit s = submit_to_server false s
