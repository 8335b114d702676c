-- ===== src/Invoices/Detail/Laws.antt =====
-- An answer that comes after its invoice was left.
use lapor_kos.Prelude.{String, ◌≡◌, refl, sym, subst, Bool, false, none, some, List, ◌∷◌}
use lapor_kos.Api.Request.{returned}
use lapor_kos.Calls.Invoices.{InvoiceCall, preview_adjustment, create_adjustment}
use lapor_kos.Invoices.{
  AdjustmentPayload, Payload, adjustment, InvoicesPage, InvoiceServer, is_incomplete,
  edit_adjustment, handle_preview_adjustment, handle_submit_adjustment,
}
use lapor_kos.Invoices.Laws.{Sent, submitted, previewed_page}
use lapor_kos.Invoices.Detail.{open_detail, detail_loaded, close_detail}

-- An invoice is opened and left, and another is opened, on which an adjustment is filled in and its
-- preview is answered. Then the answer for the first invoice comes: it is what the page shows, and the
-- adjustment that was previewed for the other one is made on it.
pub detail_stale :
    {J : Type 0} (is_tenant : Bool) (server : InvoiceServer J) (calls : List (InvoiceCall Payload))
    (s : InvoicesPage J) (left other : String) (full answer : J) (f : AdjustmentPayload)
    → is_incomplete f ≡ false
    → server calls (preview_adjustment other (adjustment f)) ≡ returned answer
    → let opened = open_detail other (close_detail (open_detail left s)) in
      let filled = edit_adjustment f (detail_loaded other (returned full) opened) in
      let (previewed, calls') = handle_preview_adjustment server calls filled in
      let late = detail_loaded left (returned full) previewed in
      let (_, calls'') = handle_submit_adjustment is_tenant server calls' late in
      (calls' ≡ preview_adjustment other (adjustment f) ∷ calls)
      × (late.preview ≡ some answer)
      × Sent (create_adjustment left (adjustment f)) calls' calls''
unfolding open_detail close_detail detail_loaded
detail_stale {J = J} is_tenant server calls s left other full answer f complete ok =
    let filled = edit_adjustment f (
      detail_loaded other (returned full)
        (open_detail other (close_detail (open_detail left s)))) in
    subst
      (λ r.
        let late = detail_loaded left (returned full) r.0 in
        (r.1 ≡ preview_adjustment other (adjustment f) ∷ calls)
        × (late.preview ≡ some answer)
        × Sent (create_adjustment left (adjustment f)) r.1
            (handle_submit_adjustment is_tenant server r.1 late).1)
      (sym (previewed_page server calls filled other answer refl complete ok))
      (
        refl,
        refl,
        submitted is_tenant server (preview_adjustment other (adjustment f) ∷ calls)
            (detail_loaded left (returned full)
              (record filled { preview = some answer; error = none }))
            left refl,
      )
