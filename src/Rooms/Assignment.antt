-- ===== src/Rooms/Assignment.antt =====
-- frontend/src/app/(dashboard)/rooms/page.tsx: the second step of the dialog, which puts a tenant into
-- a room, and the removal of a room. The files are known by whether they are chosen; the
-- two calls start `fetchRooms` and do not await it.
pub mod Laws
use lapor_kos.Prelude.{
  String, ℕ, ◌-◌, Bool, true, false, not, ◌||◌, Option, none, some, List, [], ◌∷◌, ◌==◌, ◌^^◌, ltb,
  length, if◌then◌else◌,
}
use lapor_kos.Invitations.Chars.{Chars, chars, is_empty, trim}
use lapor_kos.Invitations.Phone.{digits_of}
use lapor_kos.Phones.{format_local}
use lapor_kos.Api.Request.{Outcome, returned, thrown}
use lapor_kos.Api.Action.{Server, ask}
use lapor_kos.Forms.{is_blank, message_or}
use lapor_kos.Rooms.Dialog.{RoomForm, description_of}

pub record TenantForm : Type 0 where
  pub name : String
  pub phone : Chars
  pub email : String
  pub entry_date : String
  pub rental_duration : String

pub record Files : Type 0 where
  pub ktp : Bool
  pub selfie : Bool

-- The two texts that are numbers or lists in the form are sent as they are shown.
pub record Assigned : Type 0 where
  pub room_number : String
  pub price_per_month : Chars
  pub description : Chars
  pub status : String
  pub tenant : TenantForm
  pub files : Files

pub data RoomCall : Type 0 where
  assign_tenant : (room_id : String) (body : Assigned) → RoomCall
  create_with_tenant : (body : Assigned) → RoomCall
  delete_room : (room_id : String) (delete_tenant : Bool) → RoomCall

pub data Answer : Type 0 where
  done : Answer

abbrev pub RoomServer : Type 0
RoomServer = Server RoomCall Answer

pub record DeleteModal : Type 0 where
  pub is_delete_open : Bool
  pub room_id : String
  pub has_tenant : Bool

pub record AssignPage : Type 0 where
  pub editing_room : Option String
  pub form : RoomForm
  pub facilities : List Chars
  pub tenant_form : TenantForm
  pub files : Files
  pub is_modal_open : Bool
  pub is_submitting_tenant : Bool
  pub delete_modal : DeleteModal
  pub alerts : List String

-- The first of the checks that fails.
unfoldable pub assign_error : AssignPage → Option String
assign_error s =
    let t = s.tenant_form in
    if is_blank t.name
    then some "Nama Lengkap wajib diisi."
    else if is_empty (trim t.phone)
    then some "Nomor HP / WA wajib diisi."
    else if ltb (length (digits_of t.phone)) 12
    then some "Nomor HP / WA minimal harus 10 digit angka."
    else if is_blank t.entry_date
    then some "Tanggal Masuk wajib diisi."
    else if not s.files.ktp
    then some "Dokumen KTP wajib diupload."
    else if not s.files.selfie
    then some "Foto Selfie wajib diupload."
    else none

abbrev pub assigned : AssignPage → Assigned
assigned s = record {
  room_number = s.form.room_number;
  price_per_month = s.form.price_per_month;
  description = description_of s.facilities;
  status = s.form.status;
  tenant = s.tenant_form;
  files = s.files;
}

abbrev pub assign_call : AssignPage → RoomCall
assign_call s = elim s.editing_room [
  | none ↦ create_with_tenant (assigned s)
  | some id ↦ assign_tenant id (assigned s)
]

abbrev pub ended : Outcome Answer → AssignPage → AssignPage
ended (returned a) s = record s { is_modal_open = false; is_submitting_tenant = false }
ended (thrown m) s = record s { alerts = m ∷ s.alerts; is_submitting_tenant = false }

-- The submission by the check that fails, if one does.
abbrev pub submit_checked :
    Option String → RoomServer → List RoomCall → AssignPage → AssignPage × List RoomCall
submit_checked (some m) server calls s = (record s { alerts = m ∷ s.alerts }, calls)
submit_checked none server calls s =
    let (o, calls') = ask (assign_call s) server calls in (ended o s, calls')

-- `handleTenantSubmit`
unfoldable pub handle_tenant_submit :
    RoomServer → List RoomCall → AssignPage → AssignPage × List RoomCall
handle_tenant_submit server calls s = submit_checked (assign_error s) server calls s

-- `handlePhoneChange`
unfoldable pub handle_phone_change : Chars → AssignPage → AssignPage
handle_phone_change value s = record s {
  tenant_form = record s.tenant_form { phone = format_local 5 value };
}

-- `handleDeleteClick`, for a room by its id and status.
unfoldable pub handle_delete_click : String → String → AssignPage → AssignPage
handle_delete_click id status s = record s {
  delete_modal = record { is_delete_open = true; room_id = id; has_tenant = status == "occupied" };
}

abbrev pub removed : Outcome Answer → AssignPage → AssignPage
removed (returned a) s = record s {
  delete_modal = record { is_delete_open = false; room_id = ""; has_tenant = false };
}
removed (thrown m) s = record s { alerts = message_or m "Gagal menghapus kamar" ∷ s.alerts }

-- `confirmDelete`
unfoldable pub confirm_delete :
    Bool → RoomServer → List RoomCall → AssignPage → AssignPage × List RoomCall
confirm_delete delete_tenant server calls s =
    let (o, calls') = ask (delete_room s.delete_modal.room_id delete_tenant) server calls in
    (removed o s, calls')

-- `handleFileChange`, of a file that is chosen.
unfoldable pub choose_ktp : AssignPage → AssignPage
choose_ktp s = record s { files = record s.files { ktp = true } }

unfoldable pub choose_selfie : AssignPage → AssignPage
choose_selfie s = record s { files = record s.files { selfie = true } }
