-- ===== src/Calls/Payments.antt =====
-- frontend/src/features/payments/api.ts. The form data of a proof is a body that is no text.
use lapor_kos.Prelude.{String, Bool, true, not, Option, List, [], ◌∷◌, ◌^^◌, if◌then◌else◌}
use lapor_kos.Api.Options.{form_data}
use lapor_kos.Calls.{Call, call, with_method, with_params, with_body, scoped, given_params}

pub data PaymentCall (P : Type 0) : Type 0 where
  list_payments : (is_tenant : Bool) (params : Option (List (String × String))) → PaymentCall P
  get_payment : (id : String) (is_tenant : Bool) → PaymentCall P
  submit_payment_proof : (id : String) → PaymentCall P
  verify_payment : (id : String) (payload : P) → PaymentCall P
  get_receipt : (id : String) (is_tenant : Bool) → PaymentCall P
  get_reconciliation_report : (start_date end_date : Option String) → PaymentCall P
  create_refund : (payload : P) → PaymentCall P
  process_refund : (id : String) (payload : P) → PaymentCall P
  create_payment_bill : (payload : P) → PaymentCall P

abbrev pub with_form : Call → Call
with_form c = record c { options = record c.options { body = form_data } }

abbrev maybe_params : Option (List (String × String)) → Call → Call
maybe_params params c = record c { options = record c.options { params = params } }

module _ {P : Type 0} (stringify : P → String) where
  unfoldable pub payment_call : PaymentCall P → Call
  payment_call (list_payments is_tenant params) =
      if is_tenant
      then call "/api/payments/my"
      else scoped true (maybe_params params (call "/api/payments"))
  payment_call (get_payment id is_tenant) = scoped (not is_tenant) (call ("/api/payments/" ^^ id))
  payment_call (submit_payment_proof id) =
      with_form (with_method "POST" (call ("/api/payments/" ^^ id ^^ "/submit")))
  payment_call (verify_payment id payload) = scoped true (
      with_body (stringify payload)
        (with_method "PUT" (call ("/api/payments/" ^^ id ^^ "/verify"))))
  payment_call (get_receipt id is_tenant) =
      scoped (not is_tenant) (call ("/api/payments/" ^^ id ^^ "/receipt-data"))
  payment_call (get_reconciliation_report start_date end_date) = scoped true (
      with_params (given_params (("start_date", start_date) ∷ ("end_date", end_date) ∷ []))
        (call "/api/payments/reconciliation"))
  payment_call (create_refund payload) =
      scoped true
        (with_body (stringify payload) (with_method "POST" (call "/api/payments/refunds")))
  payment_call (process_refund id payload) =
      scoped true
        (with_body (stringify payload) (with_method "PUT" (call ("/api/payments/refunds/" ^^ id))))
  payment_call (create_payment_bill payload) =
      scoped true (with_body (stringify payload) (with_method "POST" (call "/api/payments")))
