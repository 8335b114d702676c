-- ===== src/Payments/Laws.antt =====
-- What the dialogs of the payments offer and send.
use lapor_kos.Prelude.{
  ◌+◌, ◌≤◌, ◌<◌, ◌≡◌, true, false, ◌&&◌, List, ◌∷◌, some, arith, is_none, ltb, Bool, ◌==◌, get_or,
  if◌then◌else◌,
}
use lapor_kos.Calls.Payments.{PaymentCall, submit_payment_proof, verify_payment}
use lapor_kos.Forms.{trim_text}
use lapor_kos.Payments.{
  Payment, PaymentsPage, PaymentServer, Payload, verification, VerifyForm, PayForm, total_bill,
  amount_to_pay, handle_open_pay, handle_submit_pay, handle_submit_verify, choose_file,
}

-- The amount that the dialog of a tenant opens with, if the bill is not paid off: together with what
-- is paid, it is the bill; and once a file is chosen, the form is sent as it is. A bill that is paid
-- off is offered with the whole rent again.
pub handle_open_pay_lem :
    {J : Type 0} (p : Payment) (server : PaymentServer J) (calls : List (PaymentCall Payload))
    (s : PaymentsPage)
    → let opened = handle_open_pay p s in
      (p.total_paid < total_bill p
        → (opened.pay_form.total_paid + p.total_paid ≡ total_bill p)
          × ((handle_submit_pay server calls (choose_file opened)).1
              ≡ submit_payment_proof p.id ∷ calls))
      × (total_bill p ≤ p.total_paid → opened.pay_form.total_paid ≡ p.amount_rent)
unfolding handle_open_pay amount_to_pay handle_submit_pay
handle_open_pay_lem p server calls s = ground arith

-- A rejection whose reason is missing, or nothing but white space.
abbrev pub is_unexplained : VerifyForm → Bool
is_unexplained f = f.status == "rejected" && trim_text (get_or f.rejection_reason "") == ""

-- A proof has a file and a positive amount.
abbrev pub is_complete : PayForm → Bool
is_complete f = f.has_file && ltb 0 f.total_paid

-- Of a selected payment, the verification is sent as it is filled in exactly where it is no rejection
-- without a reason, and a proof exactly where a file is chosen and the amount is positive; what is not
-- sent leaves an error, and the dialog as it is.
pub submissions_guarded :
    {J : Type 0} (server : PaymentServer J) (calls : List (PaymentCall Payload)) (s : PaymentsPage)
    (p : Payment)
    → s.selected ≡ some p
    → let (v, verified) = handle_submit_verify server calls s in
      let (t, paid) = handle_submit_pay server calls s in
      (verified ≡ (
        if is_unexplained s.verify_form
        then calls
        else verify_payment p.id (verification s.verify_form) ∷ calls))
      × (is_unexplained s.verify_form ≡ true
          → (is_none v.error ≡ false) × (v.shows_verify ≡ s.shows_verify))
      × (paid ≡ (if is_complete s.pay_form then submit_payment_proof p.id ∷ calls else calls))
      × (is_complete s.pay_form ≡ false → (is_none t.error ≡ false) × (t.shows_pay ≡ s.shows_pay))
unfolding handle_submit_verify handle_submit_pay
submissions_guarded server calls s p e = rw e (ground arith)
