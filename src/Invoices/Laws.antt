-- ===== src/Invoices/Laws.antt =====
-- What is sent of adjustments and of meters.
use lapor_kos.Prelude.{
  String, ◌≡◌, refl, sym, subst, Bool, true, false, not, ◌&&◌, none, some, List, ◌∷◌, ◌++◌, [],
  arith, inl, inr, leb, is_none, if◌then◌else◌,
}
use lapor_kos.Api.Request.{returned}
use lapor_kos.Api.Action.{Outcome-cases}
use lapor_kos.Calls.Invoices.{
  InvoiceCall, preview_adjustment, create_adjustment, get_invoice, record_meter_reading,
}
use lapor_kos.Forms.{is_blank}
use lapor_kos.Invoices.{
  AdjustmentPayload, Payload, adjustment, meter, InvoicesPage, InvoiceServer, is_incomplete,
  edit_adjustment, can_submit, handle_preview_adjustment, handle_submit_adjustment,
  handle_record_meter,
}

-- The calls `after` begin with `before`, and then `call`.
abbrev pub Sent :
    InvoiceCall Payload → List (InvoiceCall Payload) → List (InvoiceCall Payload) → Type 0
Sent call before after = (later : List (InvoiceCall Payload)) × (after ≡ later ++ (call ∷ before))

pub submitted :
    {J : Type 0} (is_tenant : Bool) (server : InvoiceServer J) (calls : List (InvoiceCall Payload))
    (s : InvoicesPage J) (id : String)
    → s.selected ≡ some id
    → Sent
        (create_adjustment id (adjustment s.adjustment_form))
        calls
        (handle_submit_adjustment is_tenant server calls s).1
unfolding handle_submit_adjustment
submitted is_tenant server calls s id selected =
    rw selected
      (elim (Outcome-cases (server calls (create_adjustment id (adjustment s.adjustment_form)))) [
        | inl (a, e) ↦ rw e (get_invoice id is_tenant ∷ [], refl)
        | inr (m, e) ↦ rw e ([], refl)
      ])

pub previewed_page :
    {J : Type 0} (server : InvoiceServer J) (calls : List (InvoiceCall Payload))
    (s : InvoicesPage J) (id : String) (answer : J)
    → s.selected ≡ some id
    → is_incomplete s.adjustment_form ≡ false
    → server calls (preview_adjustment id (adjustment s.adjustment_form)) ≡ returned answer
    → handle_preview_adjustment server calls s ≡ (
      record s { preview = some answer; error = none },
      preview_adjustment id (adjustment s.adjustment_form) ∷ calls,
    )
unfolding handle_preview_adjustment
previewed_page server calls s id answer selected complete ok = rw (selected, complete, ok) refl

-- An invoice is selected, the form is complete and its preview is there. Whatever the form is changed
-- to after it, also to an amount of 0, the preview stays, and the button sends the changed form,
-- which was not previewed, as the first call.
pub adjustment_unpreviewed :
    {J : Type 0} (is_tenant : Bool) (server : InvoiceServer J) (calls : List (InvoiceCall Payload))
    (s : InvoicesPage J) (id : String) (answer : J) (changed : AdjustmentPayload)
    → s.selected ≡ some id
    → is_incomplete s.adjustment_form ≡ false
    → server calls (preview_adjustment id (adjustment s.adjustment_form)) ≡ returned answer
    → let (previewed, calls') = handle_preview_adjustment server calls s in
      let edited = edit_adjustment changed previewed in
      let (_, calls'') = handle_submit_adjustment is_tenant server calls' edited in
      (edited.preview ≡ some answer)
      × (can_submit edited ≡ true)
      × Sent
          (create_adjustment id (adjustment changed))
          (preview_adjustment id (adjustment s.adjustment_form) ∷ calls)
          calls''
adjustment_unpreviewed is_tenant server calls s id answer changed selected complete ok =
    let edited = record s { adjustment_form = changed; preview = some answer; error = none } in
    subst
      (λ r.
        let edited' = edit_adjustment changed r.0 in
        (edited'.preview ≡ some answer)
        × (can_submit edited' ≡ true)
        × Sent (create_adjustment id (adjustment changed))
            (preview_adjustment id (adjustment s.adjustment_form) ∷ calls)
            (handle_submit_adjustment is_tenant server r.1 edited').1)
      (sym (previewed_page server calls s id answer selected complete ok))
      (
        refl,
        refl,
        submitted is_tenant server (preview_adjustment id (adjustment s.adjustment_form) ∷ calls)
            edited id selected,
      )

-- A reading is sent exactly where a contract is named and the meter has not gone back; what is not
-- sent leaves an error and the form.
pub handle_record_meter_lem :
    {J : Type 0} (period : String) (server : InvoiceServer J) (calls : List (InvoiceCall Payload))
    (s : InvoicesPage J)
    → let sends =
        not (is_blank s.meter_form.contract_id)
        && leb s.meter_form.previous_value s.meter_form.current_value in
      let (s', calls') = handle_record_meter period server calls s in
      (calls' ≡ (if sends then record_meter_reading (meter s.meter_form) ∷ calls else calls))
      × (sends ≡ false → (is_none s'.error ≡ false) × (s'.meter_form ≡ s.meter_form))
unfolding handle_record_meter
handle_record_meter_lem period server calls s = ground arith
