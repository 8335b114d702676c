-- ===== src/Examples/Money.antt =====
-- Contracts, payments and expenses.
use lapor_kos.Prelude.{
  show, String, ℕ, ◌≤◌, ◌≡◌, ◌≢◌, refl, true, false, Option, none, some, [], ◌∷◌, is_none, inl,
  ◌==◌, ℤ, pos, if◌then◌else◌,
}
use lapor_kos.Api.Request.{returned}
use lapor_kos.Calls.Payments.{submit_payment_proof, verify_payment}
use lapor_kos.Calls.Finance.{get_period_closure}
use lapor_kos.Contracts.{draft, pending_tenant, scheduled, active, owner_transitions}
use lapor_kos.Contracts.Laws.{none_made, one_more, Changes-settle}
use lapor_kos.Payments.{
  Payment, PaymentsPage, PaymentServer, verification, handle_submit_verify, handle_submit_pay,
}
use lapor_kos.Payments.Laws.{submissions_guarded, is_unexplained, is_complete}
use lapor_kos.Reports
use lapor_kos.Expenses.{
  ExpenseForm, ExpensePage, ExpenseServer, closure, saved, handle_create_submit,
}
use lapor_kos.Expenses.Laws.{handle_create_submit_lem, Submits}

Changes-settle_example :
    (1 ≤ 2) × (draft ≡ draft → (pending_tenant ≢ scheduled) × (pending_tenant ≢ active))
unfolding owner_transitions
Changes-settle_example = Changes-settle 1 draft pending_tenant (one_more none_made (inl refl))

abbrev january : Payment
january = record {
  id = "p-1";
  amount_rent = 900;
  amount_electricity = 100;
  amount_water = 0;
  amount_other = 0;
  total_paid = 400;
  paid_amount_minor = 0;
  notes = none;
}

abbrev page : PaymentsPage
page = record {
  selected = some january;
  verify_form = record {
    status = "rejected";
    paid_amount_minor = 400;
    notes = "";
    rejection_reason = some " ";
    credit_overpayment = true;
  };
  pay_form = record { payment_method = "transfer"; total_paid = 600; notes = ""; has_file = true };
  new_bill = record {
    contract_id = "";
    period_month = 1;
    period_year = 2025;
    amount_rent = 0;
    amount_electricity = 0;
    amount_water = 0;
    amount_other = 0;
    due_date = "";
    notes = "";
  };
  shows_verify = true;
  shows_pay = true;
  shows_create = false;
  busy = false;
  error = none;
  notice = none;
}

abbrev accepting : PaymentServer ℕ
accepting calls c = returned 1

submissions_guarded_example :
    let (v, verified) = handle_submit_verify accepting [] page in
    let (t, paid) = handle_submit_pay accepting [] page in
    (verified ≡ (
      if is_unexplained page.verify_form
      then []
      else verify_payment "p-1" (verification page.verify_form) ∷ []))
    × (is_unexplained page.verify_form ≡ true
        → (is_none v.error ≡ false) × (v.shows_verify ≡ page.shows_verify))
    × (paid ≡ (if is_complete page.pay_form then submit_payment_proof "p-1" ∷ [] else []))
    × (is_complete page.pay_form ≡ false
        → (is_none t.error ≡ false) × (t.shows_pay ≡ page.shows_pay))
submissions_guarded_example = submissions_guarded accepting [] page january refl

abbrev form : ExpenseForm
form = record {
  title = "Cat";
  category = "maintenance";
  vendor_name = "";
  amount = "250000";
  expense_date = "2025-01-15";
  payment_method = "cash";
  description = "";
  status = "approved";
}

abbrev expenses_page : ExpensePage
expenses_page = record {
  form = form;
  form_error = none;
  is_submitting = false;
  is_create_modal_open = true;
  success_message = none;
}

-- A server where January is closed.
abbrev closed_january : ExpenseServer
closed_january calls (get_period_closure key) =
    returned (closure (if key == "2025-01" then some "closed" else none))
closed_january calls _ = returned saved

abbrev parse_amount : String → Option ℤ
parse_amount s = some (pos 250000)

closed_test :
    (handle_create_submit parse_amount true "" closed_january [] expenses_page).1
    ≡ get_period_closure "2025-01" ∷ []
unfolding handle_create_submit
closed_test = refl

handle_create_submit_lem_example :
    Submits closed_january [] expenses_page 250000
      (handle_create_submit parse_amount true "" closed_january [] expenses_page)
handle_create_submit_lem_example =
    handle_create_submit_lem parse_amount "" closed_january [] expenses_page 250000 refl

period_key_test : Reports.period_key 2025 3 ≡ "2025-03"
unfolding Reports.period_key show
period_key_test = refl
