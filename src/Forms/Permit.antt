-- ===== src/Forms/Permit.antt =====
-- frontend/src/features/guest-permits/components/VisitorPermitRequestModal.tsx: the checks of a
-- request, and its submission. `parse` is the platform's `Date`, with `none` for one that is not
-- valid, read by the local getters.
pub mod Laws
use lapor_kos.Prelude.{
  String, ℕ, ◌-◌, ◌*◌, Bool, true, false, not, ◌&&◌, ◌||◌, Option, none, some, List, ◌==◌, eqb, leb,
  ltb, is_none, if◌then◌else◌,
}
use lapor_kos.Api.Action.{Server, ask}
use lapor_kos.Calls.Visitors.{VisitorCall, tenant_create_visitor_permit}
use lapor_kos.Forms.{Submission, trim_text, is_blank, refused, finished, message_or}

-- A `Date`: its `getTime` in milliseconds since 1970, `getFullYear`, `getMonth`, `getDate`,
-- `getHours` and `getMinutes`.
pub record LocalTime : Type 0 where
  pub time : ℕ
  pub year : ℕ
  pub month : ℕ
  pub date : ℕ
  pub hours : ℕ
  pub minutes : ℕ

pub record PermitForm : Type 0 where
  pub guest_name : String
  pub guest_phone : String
  pub guest_id_last4 : String
  pub relationship : String
  pub purpose : String
  pub is_overnight : Bool
  pub start_time : String
  pub end_time : String
  pub total_guests : ℕ
  pub vehicle_type : String
  pub vehicle_number : String

pub record CreateVisitorPermitInput : Type 0 where
  pub guest_name : String
  pub guest_phone : Option String
  pub guest_id_card_last4 : Option String
  pub relationship : String
  pub purpose : String
  pub is_overnight : Bool
  pub start_time : String
  pub end_time : String
  pub total_guests : ℕ
  pub vehicle_type : String
  pub vehicle_number : Option String

-- `end <= start`, which does not hold of a date that is not valid.
abbrev pub is_not_after : Option LocalTime → Option LocalTime → Bool
is_not_after none start = false
is_not_after (some end) none = false
is_not_after (some end) (some start) = leb end.time start.time

-- The visit of one day is over after 22:00 or on another day. The day of a date that is not valid is
-- `NaN`, which differs from itself.
abbrev pub is_too_late : Option LocalTime → Option LocalTime → Bool
is_too_late none start = true
is_too_late (some end) none = true
is_too_late (some end) (some start) =
    ltb 22 end.hours || eqb end.hours 22 && ltb 0 end.minutes || not (eqb end.date start.date)

-- `durationHours > 73`, in milliseconds.
abbrev pub is_too_long : Option LocalTime → Option LocalTime → Bool
is_too_long none start = false
is_too_long (some end) none = false
is_too_long (some end) (some start) = ltb (73 * 3600000) (end.time - start.time)

-- The error of the first check that fails.
unfoldable pub permit_error : (String → Option LocalTime) → PermitForm → Option String
permit_error parse f =
    let start = parse f.start_time in
    let end = parse f.end_time in
    if is_blank f.guest_name
    then some "Nama tamu wajib diisi."
    else if is_blank f.purpose
    then some "Tujuan kunjungan wajib diisi."
    else if f.start_time == "" || f.end_time == ""
    then some "Waktu mulai dan waktu selesai kunjungan wajib ditentukan."
    else if is_not_after end start
    then some "Waktu selesai harus lebih besar dari waktu mulai."
    else if not f.is_overnight && is_too_late end start
    then some
        "Kunjungan tanpa menginap maksimal hingga pukul 22:00 WIB di hari yang sama. Silakan aktifkan opsi \"Menginap\" jika kunjungan lewat dari jam 22:00."
    else if f.is_overnight && is_too_long end start
    then some
        "Durasi menginap tamu melebihi batas maksimal 3 hari berturut-turut (72 jam) sesuai peraturan kos."
    else none

-- `s.trim() || undefined`
abbrev filled : String → Option String
filled s = if is_blank s then none else some (trim_text s)

unfoldable pub permit_input : PermitForm → CreateVisitorPermitInput
permit_input f = record {
  guest_name = trim_text f.guest_name;
  guest_phone = filled f.guest_phone;
  guest_id_card_last4 = filled f.guest_id_last4;
  relationship = f.relationship;
  purpose = trim_text f.purpose;
  is_overnight = f.is_overnight;
  start_time = f.start_time;
  end_time = f.end_time;
  total_guests = f.total_guests;
  vehicle_type = f.vehicle_type;
  vehicle_number = filled f.vehicle_number;
}

abbrev send :
    {C : Type 0}
    → PermitForm
    → Server (VisitorCall CreateVisitorPermitInput) C
    → List (VisitorCall CreateVisitorPermitInput)
    → Submission
    → Submission × List (VisitorCall CreateVisitorPermitInput)
send f server calls s =
    let (o, calls') = ask (tenant_create_visitor_permit (permit_input f)) server calls in
    (
      finished
          (λ m.
            message_or m
              "Gagal mengajukan izin tamu. Pastikan kontrak Anda masih aktif dan tanggal tidak melewati masa sewa.")
          o s,
      calls',
    )

unfoldable pub handle_submit :
    {C : Type 0}
    → (String → Option LocalTime)
    → PermitForm
    → Server (VisitorCall CreateVisitorPermitInput) C
    → List (VisitorCall CreateVisitorPermitInput)
    → Submission
    → Submission × List (VisitorCall CreateVisitorPermitInput)
unfolding permit_error
handle_submit parse f server calls s = elim (permit_error parse f) [
  | some message ↦ (refused message s, calls)
  | none ↦ send f server calls s
]
