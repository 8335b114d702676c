-- ===== src/Calls/Finance.antt =====
-- frontend/src/features/finance/api.ts. `downloadExport` hands the same to `apiBlob`.
use lapor_kos.Prelude.{String, ℕ, Option, some, [], ◌∷◌, ◌^^◌, or_else, get_or}
use lapor_kos.Calls.{
  Call, call, with_method, with_params, with_body, for_property, given_params, number_param, Fields,
  text_field,
}

pub record ExpenseFilter : Type 0 where
  pub category : Option String
  pub status : Option String
  pub vendor_id : Option String
  pub start_date : Option String
  pub end_date : Option String
  pub search : Option String
  pub page : Option ℕ
  pub page_size : Option ℕ

-- Each takes the property first.
pub data FinanceCall (P : Type 0) : Type 0 where
  get_financial_dashboard : (period_start period_end : Option String) → FinanceCall P
  get_receivables_aging : FinanceCall P
  list_expenses : (filter : ExpenseFilter) → FinanceCall P
  get_expense : (id : String) → FinanceCall P
  create_expense : (payload : P) → FinanceCall P
  update_expense : (id : String) (payload : P) → FinanceCall P
  approve_expense : (id : String) → FinanceCall P
  pay_expense : (id : String) (payment_method : Option String) → FinanceCall P
  delete_expense : (id : String) → FinanceCall P
  list_period_closures : FinanceCall P
  get_period_closure : (period_key : String) → FinanceCall P
  close_period : (payload : P) → FinanceCall P
  reopen_period : (period_key reason : String) → FinanceCall P
  list_adjustments : (period_close_id : Option String) → FinanceCall P
  create_adjustment : (payload : P) → FinanceCall P
  approve_adjustment : (adjustment_id : String) (payload : P) → FinanceCall P
  create_export_job : (payload : P) → FinanceCall P
  list_export_jobs : FinanceCall P
  download_export : (job_id : String) → FinanceCall P

abbrev of_property : String → String → Call
of_property id path = for_property id (call ("/api/v1/properties/" ^^ id ^^ path))

module _ {P : Type 0} (stringify : P → String) (stringify_fields : Fields → String)
    (id : String) where
  unfoldable pub finance_call : FinanceCall P → Call
  finance_call (get_financial_dashboard period_start period_end) =
      with_params (given_params (("period_start", period_start) ∷ ("period_end", period_end) ∷ []))
        (of_property id "/finance/dashboard")
  finance_call get_receivables_aging = of_property id "/finance/aging"
  finance_call (list_expenses f) =
      with_params
        (given_params (
          ("category", f.category)
          ∷ ("status", f.status)
          ∷ ("vendor_id", f.vendor_id)
          ∷ ("start_date", f.start_date)
          ∷ ("end_date", f.end_date)
          ∷ ("search", f.search)
          ∷ ("page", number_param f.page)
          ∷ ("page_size", number_param f.page_size)
          ∷ []))
        (of_property id "/expenses")
  finance_call (get_expense expense) = of_property id ("/expenses/" ^^ expense)
  finance_call (create_expense payload) =
      with_body (stringify payload) (with_method "POST" (of_property id "/expenses"))
  finance_call (update_expense expense payload) =
      with_body (stringify payload) (with_method "PUT" (of_property id ("/expenses/" ^^ expense)))
  finance_call (approve_expense expense) =
      with_method "POST" (of_property id ("/expenses/" ^^ expense ^^ "/approve"))
  finance_call (pay_expense expense payment_method) =
      let method = get_or (or_else payment_method (some "bank_transfer")) "" in
      with_body (stringify_fields (("payment_method", text_field method) ∷ []))
        (with_method "POST" (of_property id ("/expenses/" ^^ expense ^^ "/pay")))
  finance_call (delete_expense expense) =
      with_method "DELETE" (of_property id ("/expenses/" ^^ expense))
  finance_call list_period_closures = of_property id "/finance/period-closures"
  finance_call (get_period_closure period_key) =
      of_property id ("/finance/period-closures/" ^^ period_key)
  finance_call (close_period payload) =
      with_body (stringify payload) (with_method "POST" (of_property id "/finance/period-closures"))
  finance_call (reopen_period period_key reason) =
      with_body (stringify_fields (("reason", text_field reason) ∷ [])) (
        with_method "POST"
          (of_property id ("/finance/period-closures/" ^^ period_key ^^ "/reopen")))
  finance_call (list_adjustments period_close_id) =
      with_params (given_params (("period_close_id", period_close_id) ∷ []))
        (of_property id "/finance/adjustments")
  finance_call (create_adjustment payload) =
      with_body (stringify payload) (with_method "POST" (of_property id "/finance/adjustments"))
  finance_call (approve_adjustment adjustment_id payload) =
      with_body (stringify payload) (
        with_method "POST"
          (of_property id ("/finance/adjustments/" ^^ adjustment_id ^^ "/approve")))
  finance_call (create_export_job payload) =
      with_body (stringify payload) (with_method "POST" (of_property id "/finance/exports"))
  finance_call list_export_jobs = of_property id "/finance/exports"
  finance_call (download_export job_id) =
      of_property id ("/finance/exports/" ^^ job_id ^^ "/download")
