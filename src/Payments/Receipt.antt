-- ===== src/Payments/Receipt.antt =====
-- frontend/src/app/(dashboard)/payments/page.tsx: the receipt of a payment and the reconciliation. A
-- payment and its receipt are known by the payment's id.
pub mod Laws
use lapor_kos.Prelude.{String, Bool, true, false, Option, none, some, if◌then◌else◌}
use lapor_kos.Api.Request.{Outcome, returned, thrown}

pub record ReceiptPage : Type 0 where
  pub selected_payment : Option String
  pub selected_receipt : Option String
  pub receipt_loading : Bool
  pub show_receipt_modal : Bool

-- `handleOpenReceipt` until its `await`.
unfoldable pub open_receipt : String → ReceiptPage → ReceiptPage
open_receipt id s = record {
  selected_payment = some id;
  selected_receipt = none;
  receipt_loading = true;
  show_receipt_modal = true;
}

-- Its answer.
unfoldable pub receipt_loaded : Outcome String → ReceiptPage → ReceiptPage
receipt_loaded (returned receipt) s = record s {
  selected_receipt = some receipt;
  receipt_loading = false;
}
receipt_loaded (thrown m) s = record s { receipt_loading = false }

unfoldable pub close_receipt : ReceiptPage → ReceiptPage
close_receipt s = record s { show_receipt_modal = false }

-- The dates of a report, which are also those that are asked for.
pub record Reconciliation : Type 0 where
  pub start_date : String
  pub end_date : String
  pub report : Option (String × String)
  pub is_loading : Bool

-- `fetchReconciliation` until its `await`, with what it asks for, and its answer.
unfoldable pub fetch_reconciliation :
    Bool → Reconciliation → Reconciliation × Option (String × String)
fetch_reconciliation is_tenant s =
    if is_tenant
    then (s, none)
    else (record s { is_loading = true }, some (s.start_date, s.end_date))

unfoldable pub reconciled : Outcome (String × String) → Reconciliation → Reconciliation
reconciled (returned report) s = record s { report = some report; is_loading = false }
reconciled (thrown m) s = record s { is_loading = false }
