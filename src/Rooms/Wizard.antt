-- ===== src/Rooms/Wizard.antt =====
-- frontend/src/app/(dashboard)/rooms/add/page.tsx: the steps of the form that adds a room. The
-- children hold what is sent and the costs.
pub mod Laws
pub mod Submission
pub mod Costs
use lapor_kos.Prelude.{
  String, ℕ, ◌+◌, ◌-◌, Bool, true, false, not, ◌&&◌, ◌||◌, List, [], ◌∷◌, ◌++◌, Option, none, some,
  ◌==◌, eqb, ltb, filter, length, if◌then◌else◌,
}
use lapor_kos.Invitations.Chars.{chars, is_digit}
use lapor_kos.Invitations.Email.{matches_email}

pub record RoomData : Type 0 where
  pub room_number : String
  pub price_per_month : String
  pub description : String
  pub type : String
  pub status : String
  pub floor : String

pub record TenantData : Type 0 where
  pub name : String
  pub phone : String
  pub email : String
  pub date_of_birth : String
  pub gender : String
  pub job : String
  pub emergency_contact_phone : String
  pub emergency_contact_relation : String
  pub emergency_contact_name : String

pub record ContractData : Type 0 where
  pub entry_date : String
  pub rental_duration : String
  pub electricity_bill : String
  pub water_bill : String
  pub other_bills : String
  pub payment_due_day : String
  pub payment_interval : String
  pub deposit : String
  pub notes : String

pub record Wizard : Type 0 where
  pub current_step : ℕ
  pub room_data : RoomData
  pub tenant_data : TenantData
  pub contract_data : ContractData

-- The keys and the messages of `newErrors`.
abbrev pub Errors : Type 0
Errors = List (String × String)

abbrev pub error_if : Bool → String → String → Errors
error_if true key message = (key, message) ∷ []
error_if false key message = []

abbrev pub required : String → String → String → Errors
required value key message = error_if (value == "") key message

-- The digits of a number of a telephone, counted.
abbrev digit_count : String → ℕ
digit_count phone = length (filter is_digit (chars phone))

abbrev pub phone_errors : String → String → String → String → Errors
phone_errors phone key missing wrong =
    if phone == ""
    then (key, missing) ∷ []
    else error_if (ltb (digit_count phone) 12 || ltb 14 (digit_count phone)) key wrong

abbrev pub email_errors : String → Errors
email_errors email =
    if email == ""
    then ("tenant_email", "Email wajib diisi!") ∷ []
    else error_if (not (matches_email (chars email))) "tenant_email" "Format email tidak valid!"

unfoldable pub room_errors : RoomData → Errors
room_errors r =
    required r.status "status" "Status Ketersediaan wajib dipilih!"
    ++ required r.room_number "room_number" "Nomor Kamar wajib diisi!"
    ++ required r.type "type" "Tipe Kamar wajib dipilih!"
    ++ required r.floor "floor" "Lantai Ke- wajib dipilih!"
    ++ required r.price_per_month "price_per_month" "Harga Sewa wajib diisi!"
    ++ required r.description "description" "Fasilitas wajib diisi!"

unfoldable pub tenant_errors : TenantData → Errors
tenant_errors t =
    required t.name "tenant_name" "Nama Lengkap wajib diisi!"
    ++ phone_errors t.phone "tenant_phone" "Nomor HP / WA wajib diisi!"
        "Nomor HP harus 11-13 digit!"
    ++ email_errors t.email
    ++ required t.date_of_birth "date_of_birth" "Tanggal Lahir wajib diisi!"
    ++ required t.gender "gender" "Jenis Kelamin wajib dipilih!"
    ++ required t.job "job" "Pekerjaan / Status wajib diisi!"
    ++ required t.emergency_contact_name "emergency_contact_name" "Nama Kontak Darurat wajib diisi!"
    ++ required t.emergency_contact_relation "emergency_contact_relation" "Hubungan wajib diisi!"
    ++ phone_errors t.emergency_contact_phone "emergency_contact_phone"
        "Nomor HP / WA Darurat wajib diisi!" "Nomor HP Darurat harus 11-13 digit!"

unfoldable pub contract_errors : ContractData → Errors
contract_errors c =
    required c.payment_interval "payment_interval" "Interval Pembayaran wajib dipilih!"
    ++ required c.deposit "deposit" "Deposito wajib diisi!"
    ++ required c.entry_date "entry_date" "Tanggal Masuk wajib diisi!"
    ++ required c.rental_duration "duration" "Durasi Kontrak wajib dipilih!"
    ++ required c.electricity_bill "electricity_bill" "Tagihan Listrik wajib diisi!"
    ++ required c.water_bill "water_bill" "Tagihan Air wajib diisi!"
    ++ required c.other_bills "other_bills" "Biaya Lainnya wajib diisi!"
    ++ required c.payment_due_day "payment_due_day" "Jatuh Tempo Pembayaran wajib dipilih!"

-- The errors that `validateStep` sets.
unfoldable pub step_errors : ℕ → Wizard → Errors
step_errors step w =
    if eqb step 1
    then room_errors w.room_data
    else if eqb step 2 && w.room_data.status == "occupied"
    then tenant_errors w.tenant_data
    else if eqb step 3 && w.room_data.status == "occupied"
    then contract_errors w.contract_data
    else []

abbrev pub has_none : Errors → Bool
has_none [] = true
has_none (_ ∷ _) = false

-- `validateStep`
abbrev pub validate_step : ℕ → Wizard → Bool
validate_step step w = has_none (step_errors step w)

-- `handleNext`
unfoldable pub handle_next : Wizard → Wizard
handle_next w =
    if not (validate_step w.current_step w)
    then w
    else if eqb w.current_step 1 && w.room_data.status == "available"
    then record w { current_step = 4 }
    else if ltb w.current_step 4
    then record w { current_step = w.current_step + 1 }
    else w

-- `handlePrev`, with the path that `router.push` is sent to.
unfoldable pub handle_prev : Wizard → Wizard × Option String
handle_prev w =
    if eqb w.current_step 4 && w.room_data.status == "available"
    then (record w { current_step = 1 }, none)
    else if ltb 1 w.current_step
    then (record w { current_step = w.current_step - 1 }, none)
    else (w, some "/rooms")
