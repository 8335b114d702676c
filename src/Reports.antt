-- ===== src/Reports.antt =====
-- frontend/src/app/(dashboard)/reports/page.tsx: the key of the period, and the handlers that close
-- and reopen it, ask for an adjustment of a closed one, and decide on an adjustment. `parse_amount`
-- is `Math.round(Number(text))`, with `none` for `NaN`. What the page loads is left out but for the
-- closure of the period; of `loadData`, which the handlers start and do not await, the beginning is
-- here.
pub mod Laws
use lapor_kos.Prelude.{
  String, ℕ, Bool, true, false, not, Option, none, some, List, ◌==◌, ◌^^◌, show, ltb, ℤ,
  if◌then◌else◌,
}
use lapor_kos.Api.Request.{Outcome, returned, thrown}
use lapor_kos.Api.Action.{Server, ask}
use lapor_kos.Calls.Finance.{
  FinanceCall, close_period, reopen_period, create_adjustment, approve_adjustment,
}
use lapor_kos.Forms.{trim_text, is_blank}

-- `periodKey`
unfoldable pub period_key : ℕ → ℕ → String
period_key year month = show year ^^ "-" ^^ (if ltb month 10 then "0" else "") ^^ show month

pub record AdjustmentForm : Type 0 where
  pub adjustment_type : String
  pub amount : String
  pub reason : String

abbrev pub empty_adjustment : AdjustmentForm
empty_adjustment = record { adjustment_type = "expense_adjustment"; amount = ""; reason = "" }

pub data Payload : Type 0 where
  closing : (period_key notes : String) → Payload
  adjusting :
      (period_close_id adjustment_type : String) (amount_minor : ℤ) (reason : String) → Payload
  deciding : (approved : Bool) (rejection_reason notes : String) → Payload

abbrev pub ReportCall : Type 0
ReportCall = FinanceCall Payload

-- What is answered is not looked at.
pub data Answer : Type 0 where
  done : Answer

abbrev pub ReportServer : Type 0
ReportServer = Server ReportCall Answer

pub record ReportsPage : Type 0 where
  pub selected_month : ℕ
  pub selected_year : ℕ
  pub period_closure : Option String
  pub is_loading : Bool
  pub error : Option String
  pub success_message : Option String
  pub is_close_modal_open : Bool
  pub is_adjustment_modal_open : Bool
  pub modal_submitting : Bool
  pub modal_error : Option String
  pub close_notes : String
  pub adjustment_form : AdjustmentForm

-- The period that is chosen.
abbrev pub chosen_period : ReportsPage → String
chosen_period s = period_key s.selected_year s.selected_month

-- `loadData` until its first `await`.
abbrev pub start_load : ReportsPage → ReportsPage
start_load s = record s { is_loading = true; error = none }

-- A dialog that begins to send.
abbrev pub sending : ReportsPage → ReportsPage
sending s = record s { modal_submitting = true; modal_error = none }

-- The `catch` and the `finally` of a dialog.
abbrev pub refused : String → ReportsPage → ReportsPage
refused message s = record s { modal_error = some message; modal_submitting = false }

abbrev closed : Outcome Answer → ReportsPage → ReportsPage
closed (returned a) s =
    let s' = record s {
      is_close_modal_open = false;
      close_notes = "";
      success_message =
          some ("Periode " ^^ chosen_period s ^^ " berhasil ditutup buku dan dilock untuk audit");
    } in
    record (start_load s') { modal_submitting = false }
closed (thrown message) s = refused message s

-- A handler, with the page and the calls before and after.
abbrev pub Handler : Type 0
Handler = ReportServer → List ReportCall → ReportsPage → ReportsPage × List ReportCall

-- One call, and what comes of it.
abbrev pub send : ReportCall → (Outcome Answer → ReportsPage → ReportsPage) → Handler
send q next server calls s = let (o, calls') = ask q server calls in (next o s, calls')

-- `handleClosePeriodSubmit`; the Boolean is `!propertyId` turned around, here and below.
unfoldable pub handle_close_period_submit : Bool → Handler
handle_close_period_submit has_property server calls s =
    if not has_property
    then (s, calls)
    else send (close_period (closing (chosen_period s) (trim_text s.close_notes))) closed server
        calls (sending s)

abbrev reopened : Outcome Answer → ReportsPage → ReportsPage
reopened (returned a) s = start_load (record s {
  success_message = some ("Periode " ^^ chosen_period s ^^ " dibuka kembali dengan catatan audit");
})
reopened (thrown message) s = record s { error = some message }

-- `handleReopenPeriod`; the reason is what `prompt` answers.
unfoldable pub handle_reopen_period : Bool → Option String → Handler
handle_reopen_period false answer server calls s = (s, calls)
handle_reopen_period true none server calls s = (s, calls)
handle_reopen_period true (some reason) server calls s =
    if is_blank reason
    then (s, calls)
    else send (reopen_period (chosen_period s) (trim_text reason)) reopened server calls s

abbrev adjusted : Outcome Answer → ReportsPage → ReportsPage
adjusted (returned a) s =
    let s' = record s {
      is_adjustment_modal_open = false;
      adjustment_form = empty_adjustment;
      success_message =
          some "Pengajuan penyesuaian pasca tutup buku berhasil diajukan dan menunggu approval";
    } in
    record (start_load s') { modal_submitting = false }
adjusted (thrown message) s = refused message s

-- The payload of an adjustment.
abbrev pub adjustment : String → ℤ → AdjustmentForm → Payload
adjustment closure amount f = adjusting closure f.adjustment_type amount (trim_text f.reason)

-- The submission of an adjustment by the id of the closure and the amount, if it is a number.
abbrev pub adjust : Option String → Option ℤ → Handler
adjust none n server calls s = (s, calls)
adjust (some closure) none server calls s =
    if closure == ""
    then (s, calls)
    else (refused "Nominal penyesuaian harus berupa angka yang valid" (sending s), calls)
adjust (some closure) (some amount) server calls s =
    if closure == ""
    then (s, calls)
    else send (create_adjustment (adjustment closure amount s.adjustment_form)) adjusted server
        calls (sending s)

-- `handleAdjustmentSubmit`
unfoldable pub handle_adjustment_submit : (String → Option ℤ) → Bool → Handler
handle_adjustment_submit parse_amount has_property server calls s =
    if not has_property
    then (s, calls)
    else adjust s.period_closure (parse_amount s.adjustment_form.amount) server calls s

abbrev decided : Bool → Outcome Answer → ReportsPage → ReportsPage
decided approved (returned a) s = start_load (record s {
  success_message =
      some
        (if approved then "Penyesuaian audit berhasil disetujui" else "Penyesuaian audit ditolak");
})
decided approved (thrown message) s = record s { error = some message }

-- `handleApproveAdjustment`; the reason is what `prompt` answers where it is asked.
unfoldable pub handle_approve_adjustment : Bool → String → Bool → Option String → Handler
handle_approve_adjustment false id approved answer server calls s = (s, calls)
handle_approve_adjustment true id true answer server calls s =
    send (approve_adjustment id (deciding true "" "Disetujui oleh otorisator")) (decided true)
      server calls s
handle_approve_adjustment true id false none server calls s = (s, calls)
handle_approve_adjustment true id false (some text) server calls s =
    let reason = trim_text text in
    send (approve_adjustment id (deciding false reason ("Ditolak: " ^^ reason))) (decided false)
      server calls s
