-- ===== src/Invoices.antt =====
-- frontend/src/app/(dashboard)/invoices/page.tsx: the adjustment of an invoice, the reading of a
-- meter, and the numbers of the page. What a call answers is of a type `J`. After a submission the
-- lists are loaded again, which is left out.
pub mod Laws
pub mod Detail
use lapor_kos.Prelude.{
  String, ℕ, ◌+◌, Bool, true, false, not, ◌&&◌, ◌||◌, Option, none, some, List, [], ◌∷◌, ◌==◌,
  filter, length, ltb, eqb, ℤ, pos, negsuc, if◌then◌else◌,
}
use lapor_kos.Api.Request.{Outcome, returned, thrown}
use lapor_kos.Api.Action.{Server, ask}
use lapor_kos.Calls.Invoices.{
  InvoiceCall, preview_adjustment, create_adjustment, get_invoice, record_meter_reading,
}
use lapor_kos.Dashboard.Revenue.{sum_from}
use lapor_kos.Forms.{is_blank}

pub record Invoice : Type 0 where
  pub status : String
  pub outstanding_minor : ℕ
  pub allocated_minor : ℕ

pub record AdjustmentPayload : Type 0 where
  pub description : String
  pub amount_minor : ℤ
  pub reason : String

pub record MeterReadingPayload : Type 0 where
  pub contract_id : String
  pub billing_period : String
  pub utility_type : String
  pub previous_value : ℕ
  pub current_value : ℕ
  pub unit_price_minor : ℕ
  pub notes : String

-- What is sent with a call.
pub data Payload : Type 0 where
  adjustment : AdjustmentPayload → Payload
  meter : MeterReadingPayload → Payload

-- The dialogs' part of the page; the invoice that is selected by its id.
pub record InvoicesPage (J : Type 0) : Type 0 where
  pub selected : Option String
  pub adjustment_form : AdjustmentPayload
  pub preview : Option J
  pub shows_adjustment : Bool
  pub meter_form : MeterReadingPayload
  pub shows_meter : Bool
  pub error : Option String
  pub notice : Option String

abbrev is_zero : ℤ → Bool
is_zero (pos n) = eqb n 0
is_zero (negsuc n) = false

-- The check before a preview fails.
abbrev pub is_incomplete : AdjustmentPayload → Bool
is_incomplete f = is_blank f.description || is_blank f.reason || is_zero f.amount_minor

abbrev pub empty_meter : String → MeterReadingPayload
empty_meter period = record {
  contract_id = "";
  billing_period = period;
  utility_type = "electricity";
  previous_value = 0;
  current_value = 0;
  unit_price_minor = 1500;
  notes = "";
}

abbrev pub InvoiceServer : Type 0 → Type 0
InvoiceServer J = Server (InvoiceCall Payload) J

module _ {J : Type 0} where
  abbrev refused : String → InvoicesPage J → InvoicesPage J
  refused message s = record s { error = some message }

  abbrev previewed : Outcome J → InvoicesPage J → InvoicesPage J
  previewed (returned answer) s = record s { preview = some answer; error = none }
  previewed (thrown message) s = record s { error = some message }

  unfoldable pub handle_preview_adjustment :
      InvoiceServer J
      → List (InvoiceCall Payload)
      → InvoicesPage J
      → InvoicesPage J × List (InvoiceCall Payload)
  handle_preview_adjustment server calls s = elim s.selected [
    | none ↦ (s, calls)
    | some id ↦
        if is_incomplete s.adjustment_form
        then (refused "Deskripsi, alasan, dan nominal tidak boleh kosong atau nol." s, calls)
        else let (o, calls') =
            ask (preview_adjustment id (adjustment s.adjustment_form)) server calls in
          (previewed o s, calls')
  ]

  -- The form is edited, which leaves the preview as it is.
  abbrev pub edit_adjustment : AdjustmentPayload → InvoicesPage J → InvoicesPage J
  edit_adjustment f s = record s { adjustment_form = f }

  -- The button is disabled without a preview.
  abbrev pub can_submit : InvoicesPage J → Bool
  can_submit s = elim s.preview [ none ↦ false | some answer ↦ true ]

  -- The adjustment is made; then the invoice is loaded again.
  abbrev created : Outcome J → InvoicesPage J → InvoicesPage J
  created (returned answer) s = record s {
    error = none;
    notice = some "Penyesuaian tagihan berhasil dibuat.";
    shows_adjustment = false;
    preview = none;
  }
  created (thrown message) s = record s { error = some message }

  abbrev reloaded : Outcome J → InvoicesPage J → InvoicesPage J
  reloaded (returned answer) s = s
  reloaded (thrown message) s = record s { error = some message }

  abbrev reload_after :
      Bool
      → String
      → InvoiceServer J
      → List (InvoiceCall Payload)
      → Outcome J
      → InvoicesPage J
      → InvoicesPage J × List (InvoiceCall Payload)
  reload_after is_tenant id server calls (thrown message) s = (s, calls)
  reload_after is_tenant id server calls (returned answer) s =
      let (o, calls') = ask (get_invoice id is_tenant) server calls in (reloaded o s, calls')

  unfoldable pub handle_submit_adjustment :
      Bool
      → InvoiceServer J
      → List (InvoiceCall Payload)
      → InvoicesPage J
      → InvoicesPage J × List (InvoiceCall Payload)
  handle_submit_adjustment is_tenant server calls s = elim s.selected [
    | none ↦ (s, calls)
    | some id ↦
        let (o, calls') = ask (create_adjustment id (adjustment s.adjustment_form)) server calls in
        reload_after is_tenant id server calls' o (created o s)
  ]

  abbrev recorded : String → Outcome J → InvoicesPage J → InvoicesPage J
  recorded period (returned answer) s = record s {
    error = none;
    notice = some "Pencatatan meter utilitas berhasil disimpan.";
    shows_meter = false;
    meter_form = empty_meter period;
  }
  recorded period (thrown message) s = record s { error = some message }

  unfoldable pub handle_record_meter :
      String
      → InvoiceServer J
      → List (InvoiceCall Payload)
      → InvoicesPage J
      → InvoicesPage J × List (InvoiceCall Payload)
  handle_record_meter period server calls s =
      if is_blank s.meter_form.contract_id
      then (refused "Contract ID wajib diisi." s, calls)
      else if ltb s.meter_form.current_value s.meter_form.previous_value
      then (refused "Angka meter saat ini tidak boleh lebih kecil dari angka sebelumnya." s, calls)
      else let (o, calls') = ask (record_meter_reading (meter s.meter_form)) server calls in
        (recorded period o s, calls')

pub record Stats : Type 0 where
  pub total_outstanding : ℕ
  pub total_allocated : ℕ
  pub overdue_count : ℕ
  pub unpaid_count : ℕ

abbrev is_unpaid : Invoice → Bool
is_unpaid i = i.status == "issued" || i.status == "partially_paid" || i.status == "overdue"

unfoldable pub stats : List Invoice → Stats
stats invoices = record {
  total_outstanding = sum_from (λ i. i.outstanding_minor) 0 invoices;
  total_allocated = sum_from (λ i. i.allocated_minor) 0 invoices;
  overdue_count = length (filter (λ i. i.status == "overdue") invoices);
  unpaid_count = length (filter is_unpaid invoices);
}
