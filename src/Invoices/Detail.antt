-- ===== src/Invoices/Detail.antt =====
-- frontend/src/app/(dashboard)/invoices/page.tsx: an invoice is opened, which asks the server for it, and
-- closed. The answer is that of the invoice that was asked for.
pub mod Laws
use lapor_kos.Prelude.{String, Bool, false, none, some, ℤ, pos}
use lapor_kos.Api.Request.{Outcome, returned, thrown}
use lapor_kos.Invoices.{InvoicesPage, AdjustmentPayload}

abbrev pub empty_adjustment : AdjustmentPayload
empty_adjustment = record { description = ""; amount_minor = pos 0; reason = "" }

module _ {J : Type 0} where
  -- `handleOpenDetail` until its `await`, and its answer for the invoice with the id.
  unfoldable pub open_detail : String → InvoicesPage J → InvoicesPage J
  open_detail id s = record s {
    selected = some id;
    shows_adjustment = false;
    preview = none;
    adjustment_form = empty_adjustment;
  }

  unfoldable pub detail_loaded : String → Outcome J → InvoicesPage J → InvoicesPage J
  detail_loaded id (returned full) s = record s { selected = some id }
  detail_loaded id (thrown m) s = s

  unfoldable pub close_detail : InvoicesPage J → InvoicesPage J
  close_detail s = record s { selected = none }
