-- ===== src/Rooms/Wizard/Submission/Laws.antt =====
-- What is sent of a form whose steps were checked, and of a room that the form is opened with.
use lapor_kos.Prelude.{
  String, ℕ, ◌≤◌, length, filter, ◌≡◌, refl, true, false, none, some, [], ◌==◌, lookup, arith,
}
use lapor_kos.Invitations.Chars.{chars, is_digit}
use lapor_kos.Invitations.Email.{matches_email}
use lapor_kos.Rooms.Wizard.{
  RoomData, TenantData, ContractData, room_errors, tenant_errors, contract_errors, step_errors,
  has_none, validate_step, handle_next,
}
use lapor_kos.Tenants.{or_text}
use lapor_kos.Rooms.Wizard.Submission.{
  AddRoom, LoadedRoom, typed, remove_dots, FormFields, room_loaded,
}

-- A text is filled in.
abbrev pub IsFilled : String → Type 0
IsFilled text = (text == "") ≡ false

-- A telephone number has 12 to 14 digits, the country code included.
abbrev pub IsPhone : String → Type 0
IsPhone phone =
    IsFilled phone
    × (12 ≤ length (filter is_digit (chars phone)))
    × (length (filter is_digit (chars phone)) ≤ 14)

-- The room, the tenant and the contract are filled in.
abbrev pub IsRoom : RoomData → Type 0
IsRoom r =
    IsFilled r.status
    × IsFilled r.room_number
    × IsFilled r.type
    × IsFilled r.floor
    × IsFilled r.price_per_month
    × IsFilled r.description

abbrev pub IsTenant : TenantData → Type 0
IsTenant t =
    IsFilled t.name
    × IsPhone t.phone
    × (matches_email (chars t.email) ≡ true)
    × IsFilled t.date_of_birth
    × IsFilled t.gender
    × IsFilled t.job
    × IsFilled t.emergency_contact_name
    × IsFilled t.emergency_contact_relation
    × IsPhone t.emergency_contact_phone

abbrev pub IsContract : ContractData → Type 0
IsContract c =
    IsFilled c.payment_interval
    × IsFilled c.deposit
    × IsFilled c.entry_date
    × IsFilled c.rental_duration
    × IsFilled c.electricity_bill
    × IsFilled c.water_bill
    × IsFilled c.other_bills
    × IsFilled c.payment_due_day

-- The value that is sent under a key.
abbrev pub Under : FormFields → String → String → Type 0
Under fields key value = lookup key fields ≡ some (typed value)

-- An amount without its dots, and 0 where nothing is left.
abbrev pub plain : String → String
plain text = or_text (some (remove_dots text)) "0"

abbrev pub SendsRoom : FormFields → RoomData → Type 0
SendsRoom fields r =
    Under fields "room_number" r.room_number
    × Under fields "price_per_month" (remove_dots r.price_per_month)
    × Under fields "status" r.status
    × Under fields "type" r.type
    × Under fields "floor" r.floor
    × Under fields "is_draft" "false"

abbrev pub SendsTenant : FormFields → TenantData → Type 0
SendsTenant fields t =
    Under fields "name" t.name
    × Under fields "phone" t.phone
    × Under fields "email" t.email
    × Under fields "date_of_birth" t.date_of_birth
    × Under fields "gender" t.gender
    × Under fields "job" t.job
    × Under fields "emergency_contact_phone" t.emergency_contact_phone
    × Under fields "emergency_contact_relation" t.emergency_contact_relation
    × Under fields "emergency_contact_name" t.emergency_contact_name

abbrev pub SendsContract : FormFields → ContractData → Type 0
SendsContract fields c =
    Under fields "entry_date" c.entry_date
    × Under fields "rental_duration" c.rental_duration
    × Under fields "electricity_bill" (plain c.electricity_bill)
    × Under fields "water_bill" (plain c.water_bill)
    × Under fields "other_bills" (plain c.other_bills)
    × Under fields "payment_due_day" (or_text (some c.payment_due_day) "1")
    × Under fields "payment_interval" c.payment_interval
    × Under fields "deposit" (plain c.deposit)
    × Under fields "notes" c.notes

typeless : (r : RoomData) → (r.type == "") ≡ true → has_none (room_errors r) ≡ false
unfolding room_errors
typeless r h = ground arith

-- A room that has no type yet: the form that is opened with it comes to its last step though the
-- type, which the first step asks for, is missing.
pub loaded_unchecked :
    (locale : ℕ → String) (r : LoadedRoom) (s : AddRoom)
    → r.type ≡ none
    → tenant_errors s.wizard.tenant_data ≡ []
    → contract_errors s.wizard.contract_data ≡ []
    → let w = handle_next (handle_next (room_loaded locale r s).wizard) in
      (w.current_step ≡ 4) × (validate_step 1 w ≡ false)
unfolding room_loaded handle_next step_errors room_errors
loaded_unchecked locale r s untyped tenant contract = (
  simp (tenant, contract),
  simp (tenant, contract) (typeless (room_loaded locale r s).wizard.room_data (rw untyped refl)),
)
