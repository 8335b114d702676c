-- ===== src/Payments.antt =====
-- frontend/src/app/(dashboard)/payments/page.tsx: the dialogs that verify a payment, hand in a proof
-- and make a bill. Amounts are whole numbers, and not negative, apart from the amount that is left
-- of a bill. After a submission the lists are loaded again, which is left out.
pub mod Laws
pub mod Receipt
use lapor_kos.Prelude.{
  String, ℕ, ◌+◌, ◌-◌, Bool, true, false, not, ◌&&◌, ◌||◌, Option, none, some, List, [], ◌∷◌, ◌==◌,
  eqb, ltb, get_or, truthy, is_none, optional, if◌then◌else◌,
}
use lapor_kos.Api.Request.{Outcome, returned, thrown}
use lapor_kos.Api.Action.{Server, ask}
use lapor_kos.Calls.Payments.{
  PaymentCall, list_payments, verify_payment, submit_payment_proof, create_payment_bill,
}
use lapor_kos.Calls.{given_params}
use lapor_kos.Forms.{is_blank}

pub record Payment : Type 0 where
  pub id : String
  pub amount_rent : ℕ
  pub amount_electricity : ℕ
  pub amount_water : ℕ
  pub amount_other : ℕ
  pub total_paid : ℕ
  pub paid_amount_minor : ℕ
  pub notes : Option String

pub record VerifyForm : Type 0 where
  pub status : String
  pub paid_amount_minor : ℕ
  pub notes : String
  pub rejection_reason : Option String
  pub credit_overpayment : Bool

pub record PayForm : Type 0 where
  pub payment_method : String
  pub total_paid : ℕ
  pub notes : String
  pub has_file : Bool

pub record NewBill : Type 0 where
  pub contract_id : String
  pub period_month : ℕ
  pub period_year : ℕ
  pub amount_rent : ℕ
  pub amount_electricity : ℕ
  pub amount_water : ℕ
  pub amount_other : ℕ
  pub due_date : String
  pub notes : String

-- What is sent with a call.
pub data Payload : Type 0 where
  verification : VerifyForm → Payload
  bill : NewBill → Payload

-- The dialogs' part of the page.
pub record PaymentsPage : Type 0 where
  pub selected : Option Payment
  pub verify_form : VerifyForm
  pub pay_form : PayForm
  pub new_bill : NewBill
  pub shows_verify : Bool
  pub shows_pay : Bool
  pub shows_create : Bool
  pub busy : Bool
  pub error : Option String
  pub notice : Option String

abbrev pub PaymentServer : Type 0 → Type 0
PaymentServer J = Server (PaymentCall Payload) J

-- The call of `fetchPayments`.
unfoldable pub fetch_payments_call : Bool → String → String → String → PaymentCall Payload
fetch_payments_call is_tenant status month year = list_payments is_tenant (
    some
      (given_params (("status", some status) ∷ ("month", some month) ∷ ("year", some year) ∷ [])))

-- `totalBill`
abbrev pub total_bill : Payment → ℕ
total_bill p = p.amount_rent + p.amount_electricity + p.amount_water + p.amount_other

unfoldable pub amount_to_verify : Payment → ℕ
amount_to_verify full =
    if ltb 0 full.paid_amount_minor
    then full.paid_amount_minor
    else if ltb 0 full.total_paid
    then full.total_paid
    else total_bill full

abbrev verify_form_of : ℕ → Option String → VerifyForm
verify_form_of amount notes = record {
  status = "paid";
  paid_amount_minor = amount;
  notes = get_or notes "";
  rejection_reason = some "";
  credit_overpayment = true;
}

-- `handleOpenVerify`, with the answer of `getPayment`.
unfoldable pub handle_open_verify : Payment → Outcome Payment → PaymentsPage → PaymentsPage
unfolding amount_to_verify
handle_open_verify p (returned full) s = record s {
  selected = some full;
  verify_form = verify_form_of (amount_to_verify full) full.notes;
  shows_verify = true;
}
handle_open_verify p (thrown message) s = record s {
  selected = some p;
  verify_form = verify_form_of (if eqb p.total_paid 0 then p.amount_rent else p.total_paid) p.notes;
  shows_verify = true;
}

abbrev is_rejected : VerifyForm → Bool
is_rejected f = f.status == "rejected"

-- A rejection without a reason.
abbrev pub lacks_reason : VerifyForm → Bool
lacks_reason f = is_rejected f && is_blank (get_or f.rejection_reason "")

abbrev refused : String → PaymentsPage → PaymentsPage
refused message s = record s { error = some message }

abbrev verified : {J : Type 0} → Outcome J → PaymentsPage → PaymentsPage
verified (returned _) s = record s {
  busy = false;
  error = none;
  shows_verify = false;
  notice = some (
      if is_rejected s.verify_form
      then "Pembayaran berhasil ditandai ditolak."
      else "Pembayaran berhasil diverifikasi dan kwitansi resmi telah diterbitkan.");
}
verified (thrown message) s = record s { busy = false; error = some message }

abbrev submitted : {J : Type 0} → Outcome J → PaymentsPage → PaymentsPage
submitted (returned _) s = record s {
  busy = false;
  error = none;
  shows_pay = false;
  notice = some "Bukti pembayaran berhasil dikirim. Menunggu verifikasi pemilik kos.";
}
submitted (thrown message) s = record s { busy = false; error = some message }

abbrev billed : {J : Type 0} → Outcome J → PaymentsPage → PaymentsPage
billed (returned _) s = record s {
  busy = false;
  error = none;
  shows_create = false;
  notice = some "Tagihan pembayaran berhasil dibuat.";
}
billed (thrown message) s = record s { busy = false; error = some message }

-- Each submission gives the page, and the calls that were made, the latest first.
module _ {J : Type 0} where
  unfoldable pub handle_submit_verify :
      PaymentServer J
      → List (PaymentCall Payload)
      → PaymentsPage
      → PaymentsPage × List (PaymentCall Payload)
  handle_submit_verify server calls s = elim s.selected [
    | none ↦ (s, calls)
    | some p ↦
        if lacks_reason s.verify_form
        then (refused "Alasan penolakan wajib diisi bila status pembayaran ditolak." s, calls)
        else let (o, calls') =
            ask (verify_payment p.id (verification s.verify_form)) server calls in
          (verified o s, calls')
  ]

  unfoldable pub handle_submit_pay :
      PaymentServer J
      → List (PaymentCall Payload)
      → PaymentsPage
      → PaymentsPage × List (PaymentCall Payload)
  handle_submit_pay server calls s = elim s.selected [
    | none ↦ (s, calls)
    | some p ↦
        if not s.pay_form.has_file
        then (refused "Silakan pilih dan unggah file bukti transfer/pembayaran." s, calls)
        else if not (ltb 0 s.pay_form.total_paid)
        then (refused "Nominal pembayaran harus lebih besar dari 0." s, calls)
        else let (o, calls') = ask (submit_payment_proof p.id) server calls in
          (submitted o s, calls')
  ]

  unfoldable pub handle_create_bill :
      PaymentServer J
      → List (PaymentCall Payload)
      → PaymentsPage
      → PaymentsPage × List (PaymentCall Payload)
  handle_create_bill server calls s =
      if s.new_bill.contract_id == ""
      then (refused "Silakan pilih kontrak penyewa." s, calls)
      else let (o, calls') = ask (create_payment_bill (bill s.new_bill)) server calls in
        (billed o s, calls')

-- The amount that the form is opened with: what is left of the bill, or the rent where nothing is.
unfoldable pub amount_to_pay : Payment → ℕ
amount_to_pay p =
    if ltb p.total_paid (total_bill p) then total_bill p - p.total_paid else p.amount_rent

unfoldable pub handle_open_pay : Payment → PaymentsPage → PaymentsPage
unfolding amount_to_pay
handle_open_pay p s = record s {
  selected = some p;
  pay_form = record {
    payment_method = "transfer";
    total_paid = amount_to_pay p;
    notes = "";
    has_file = false;
  };
  shows_pay = true;
}

-- A file is chosen.
abbrev pub choose_file : PaymentsPage → PaymentsPage
choose_file s = record s { pay_form = record s.pay_form { has_file = true } }
