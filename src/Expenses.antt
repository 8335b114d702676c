-- ===== src/Expenses.antt =====
-- frontend/src/app/(dashboard)/expenses/page.tsx: the filter, the submission of an expense, and the
-- numbers of the page. `parse_amount` is `Math.round(Number(text))`, with `none` for `NaN`.
pub mod Laws
pub mod Actions
use lapor_kos.Prelude.{
  String, ℕ, Bool, false, not, ◌||◌, Option, none, some, List, [], ◌==◌, ◌^^◌, zero, suc, filter,
  length, ℤ, pos, negsuc, if◌then◌else◌,
}
use lapor_kos.Api.Request.{Outcome, returned, thrown}
use lapor_kos.Api.Action.{Action, Server, pure, ask, attempt, ◌>>=◌}
use lapor_kos.Calls.Finance.{FinanceCall, ExpenseFilter, get_period_closure, create_expense}
use lapor_kos.Dashboard.Revenue.{sum_from}
use lapor_kos.Rooms.Pages.{max, total_pages}
use lapor_kos.Forms.{trim_text}

pub record Expense : Type 0 where
  pub amount_minor : ℕ
  pub status : String

-- What is chosen above the list.
pub record Choice : Type 0 where
  pub search : String
  pub selected_category : String
  pub selected_status : String
  pub start_date : String
  pub end_date : String
  pub page : ℕ

abbrev pub page_size : ℕ
page_size = 15

-- `s || undefined`
abbrev filled : String → Option String
filled s = if s == "" then none else some s

abbrev chosen : String → Option String
chosen s = if not (s == "all") then some s else none

-- The filter of `loadExpenses`.
unfoldable pub expense_filter : Choice → ExpenseFilter
expense_filter c = record {
  category = chosen c.selected_category;
  status = chosen c.selected_status;
  vendor_id = none;
  start_date = filled c.start_date;
  end_date = filled c.end_date;
  search = filled (trim_text c.search);
  page = some c.page;
  page_size = some page_size;
}

pub record ExpenseForm : Type 0 where
  pub title : String
  pub category : String
  pub vendor_name : String
  pub amount : String
  pub expense_date : String
  pub payment_method : String
  pub description : String
  pub status : String

pub record CreateExpensePayload : Type 0 where
  pub title : String
  pub category : String
  pub vendor_name : String
  pub amount_minor : ℕ
  pub expense_date : String
  pub payment_method : String
  pub description : String
  pub status : String

-- What the two calls answer: the closure of a period, if there is one, by its status; and an expense.
pub data Answer : Type 0 where
  closure : Option String → Answer
  saved : Answer

abbrev pub ExpenseServer : Type 0
ExpenseServer = Server (FinanceCall CreateExpensePayload) Answer

-- `closure && closure.status !== 'reopened'`, of the lookup that may have failed.
abbrev pub is_closed : Outcome Answer → Bool
is_closed (returned (closure (some status))) = not (status == "reopened")
is_closed _ = false

-- `s.slice(0, n)`
abbrev pub slice : ℕ → String → String
slice zero s = ""
slice (suc n) String.[] = ""
slice (suc n) (String.◌∷◌ c s) = String.◌∷◌ c (slice n s)

abbrev pub period_key : ExpenseForm → String
period_key f = slice 7 f.expense_date

abbrev pub expense_payload : ExpenseForm → ℕ → CreateExpensePayload
expense_payload f amount = record {
  title = trim_text f.title;
  category = f.category;
  vendor_name = trim_text f.vendor_name;
  amount_minor = amount;
  expense_date = f.expense_date;
  payment_method = f.payment_method;
  description = trim_text f.description;
  status = f.status;
}

-- Whether the expense is stored, or its period was found closed.
pub data Verdict : Type 0 where
  stored period_closed : Verdict

abbrev pub ExpenseAction : Type 0 → Type 0
ExpenseAction A = Action (FinanceCall CreateExpensePayload) Answer A

abbrev pub create : ExpenseForm → ℕ → ExpenseAction Verdict
create f amount = do saved_one ← ask (create_expense (expense_payload f amount)); pure stored

abbrev pub store : ExpenseForm → ℕ → Outcome Answer → ExpenseAction Verdict
store f amount found = if is_closed found then pure period_closed else create f amount

-- The `try` of `handleCreateSubmit`.
abbrev pub submit_expense : ExpenseForm → ℕ → ExpenseAction Verdict
submit_expense f amount = do
  found ← attempt (ask (get_period_closure (period_key f)))
  store f amount found

pub record ExpensePage : Type 0 where
  pub form : ExpenseForm
  pub form_error : Option String
  pub is_submitting : Bool
  pub is_create_modal_open : Bool
  pub success_message : Option String

abbrev empty_form : String → ExpenseForm
empty_form today = record {
  title = "";
  category = "maintenance";
  vendor_name = "";
  amount = "";
  expense_date = today;
  payment_method = "bank_transfer";
  description = "";
  status = "approved";
}

abbrev finished : String → Outcome Verdict → ExpensePage → ExpensePage
finished today (returned stored) s = record s {
  form = empty_form today;
  form_error = none;
  is_submitting = false;
  is_create_modal_open = false;
  success_message = some "Pengeluaran berhasil dicatat";
}
finished today (returned period_closed) s = record s {
  form_error = some (
      "Periode "
      ^^ period_key s.form
      ^^ " telah ditutup buku (closed). Penambahan pengeluaran baru pada periode ini wajib melalui menu Adjustment.");
  is_submitting = false;
}
finished today (thrown message) s = record s { form_error = some message; is_submitting = false }

-- A positive amount, if it is one.
abbrev pub positive : Option ℤ → Option ℕ
positive none = none
positive (some (pos zero)) = none
positive (some (pos (suc n))) = some (suc n)
positive (some (negsuc n)) = none

-- `handleCreateSubmit`, with the calls before and after. Without a property it does nothing.
unfoldable pub handle_create_submit :
    (String → Option ℤ)
    → Bool
    → String
    → ExpenseServer
    → List (FinanceCall CreateExpensePayload)
    → ExpensePage
    → ExpensePage × List (FinanceCall CreateExpensePayload)
handle_create_submit parse_amount has_property today server calls s =
    if not has_property then (s, calls) else elim (positive (parse_amount s.form.amount)) [
      | none ↦
          (record s { form_error = some "Nominal pengeluaran harus berupa angka positif" }, calls)
      | some amount ↦
          let (o, calls') = submit_expense s.form amount server calls in
          (finished today o s, calls')
    ]

pub record Metrics : Type 0 where
  pub total_amount : ℕ
  pub paid_count : ℕ
  pub pending_count : ℕ

unfoldable pub metrics : List Expense → Metrics
metrics expenses = record {
  total_amount = sum_from (λ e. e.amount_minor) 0 expenses;
  paid_count = length (filter (λ e. e.status == "paid") expenses);
  pending_count =
      length (filter (λ e. e.status == "pending_approval" || e.status == "draft") expenses);
}

-- `totalPages`
unfoldable pub expense_pages : ℕ → ℕ
unfolding total_pages
expense_pages total = max 1 (total_pages total page_size)
