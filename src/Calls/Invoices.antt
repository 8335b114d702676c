-- ===== src/Calls/Invoices.antt =====
-- frontend/src/features/invoices/api.ts
use lapor_kos.Prelude.{String, ℕ, Bool, not, some, [], ◌∷◌, ◌^^◌, show, if◌then◌else◌}
use lapor_kos.Calls.{
  Call, call, with_method, with_params, with_body, scoped, given_params, Fields, text_field,
}

pub data InvoiceCall (P : Type 0) : Type 0 where
  list_invoices : (tenant : Bool) (page page_size : ℕ) (status period : String) → InvoiceCall P
  get_invoice : (id : String) (tenant : Bool) → InvoiceCall P
  get_billing_policy : InvoiceCall P
  update_billing_policy : (policy : P) → InvoiceCall P
  generate_invoices : (period : String) → InvoiceCall P
  list_billing_jobs : (limit : ℕ) → InvoiceCall P
  preview_adjustment create_adjustment : (id : String) (body : P) → InvoiceCall P
  record_meter_reading : (body : P) → InvoiceCall P
  create_final_settlement : (contract_id : String) (body : P) → InvoiceCall P

module _ {P : Type 0} (stringify : P → String) (stringify_fields : Fields → String) where
  unfoldable pub invoice_call : InvoiceCall P → Call
  invoice_call (list_invoices tenant page page_size status period) =
      with_params
        (given_params (
          ("page", some (show page))
          ∷ ("page_size", some (show page_size))
          ∷ ("status", some status)
          ∷ ("period", some period)
          ∷ []))
        (scoped (not tenant) (call (if tenant then "/api/invoices/my" else "/api/invoices")))
  invoice_call (get_invoice id tenant) =
      scoped (not tenant)
        (call (if tenant then "/api/invoices/" ^^ id ^^ "/my" else "/api/invoices/" ^^ id))
  invoice_call get_billing_policy = call "/api/billing/policy"
  invoice_call (update_billing_policy policy) =
      with_body (stringify policy) (with_method "PUT" (call "/api/billing/policy"))
  invoice_call (generate_invoices period) =
      with_body (stringify_fields (("period", text_field period) ∷ []))
        (with_method "POST" (call "/api/invoices/generate"))
  invoice_call (list_billing_jobs limit) = call ("/api/billing/jobs?limit=" ^^ show limit)
  invoice_call (preview_adjustment id body) =
      with_body (stringify body)
        (with_method "POST" (call ("/api/invoices/" ^^ id ^^ "/adjustments/preview")))
  invoice_call (create_adjustment id body) =
      with_body (stringify body)
        (with_method "POST" (call ("/api/invoices/" ^^ id ^^ "/adjustments")))
  invoice_call (record_meter_reading body) =
      with_body (stringify body) (with_method "POST" (call "/api/billing/meter-readings"))
  invoice_call (create_final_settlement contract_id body) =
      with_body (stringify body)
        (with_method "POST" (call ("/api/invoices/final-settlements/" ^^ contract_id)))
