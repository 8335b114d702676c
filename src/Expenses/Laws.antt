-- ===== src/Expenses/Laws.antt =====
-- Which expenses are stored.
use lapor_kos.Prelude.{
  String, ℕ, zero, suc, ◌≡◌, ◌≢◌, ◌↔◌, ◌⊎◌, take, eq_iff, none, ap, refl, true, false, Option, some,
  List, ◌∷◌, arith, ℤ, Bool-cases, inl, inr, is_none,
}
use Prim.Native.Char.{code}
use lapor_kos.Api.Request.{Outcome, returned, thrown}
use lapor_kos.Api.Action.{Outcome-cases}
use lapor_kos.Invitations.Chars.{chars}
use lapor_kos.Forms.{trim_text}
use lapor_kos.Calls.Finance.{FinanceCall, get_period_closure, create_expense}
use lapor_kos.Expenses.{
  ExpensePage, ExpenseForm, Answer, closure, saved, slice, create, ExpenseServer,
  CreateExpensePayload, period_key, expense_payload, is_closed, positive, handle_create_submit,
}

created-calls :
    (server : ExpenseServer) (calls : List (FinanceCall CreateExpensePayload)) (f : ExpenseForm)
    (amount : ℕ)
    → (create f amount server calls).1 ≡ create_expense (expense_payload f amount) ∷ calls
created-calls server calls f amount =
    elim (Outcome-cases (server calls (create_expense (expense_payload f amount)))) [
      | inl (a, e) ↦ rw e refl
      | inr (m, e) ↦ rw e refl
    ]

-- The lookup has found a period that is closed and was not reopened.
abbrev pub IsShut : Outcome Answer → Type 0
IsShut o = (status : String) × (o ≡ returned (closure (some status))) × (status ≢ "reopened")

is_closed_iff : (o : Outcome Answer) → (is_closed o ≡ true) ↔ IsShut o
is_closed_iff (returned (closure none)) = (λ h. absurd (ground arith), λ (status, e, k). absurd cc)
is_closed_iff (returned saved) = (λ h. absurd (ground arith), λ (status, e, k). absurd cc)
is_closed_iff (thrown m) = (λ h. absurd (ground arith), λ (status, e, k). absurd cc)
is_closed_iff (returned (closure (some status))) = (
  λ h. (status, refl, ground (arith, eq_iff status "reopened")),
  λ (found, e, other). let same : status ≡ found = cc in ground (arith, eq_iff status "reopened"),
)

-- What is stored of a form: its texts trimmed.
abbrev pub stored_as : ExpenseForm → ℕ → CreateExpensePayload
stored_as f amount = record {
  title = trim_text f.title;
  category = f.category;
  vendor_name = trim_text f.vendor_name;
  amount_minor = amount;
  expense_date = f.expense_date;
  payment_method = f.payment_method;
  description = trim_text f.description;
  status = f.status;
}

-- The period of a date is named by its first seven characters.
chars-slice : (n : ℕ) (s : String) → chars (slice n s) ≡ take n (chars s)
chars-slice zero s = refl
chars-slice (suc n) String.[] = refl
chars-slice (suc n) (String.◌∷◌ c s) = ap (λ r. code c ∷ r) (chars-slice n s)

-- What becomes of the form and the calls, with the key of the period of the date.
abbrev pub Submits :
    ExpenseServer
    → List (FinanceCall CreateExpensePayload)
    → ExpensePage
    → ℕ
    → ExpensePage × List (FinanceCall CreateExpensePayload)
    → Type 0
Submits server calls s amount (s', calls') =
    (key : String) × (chars key ≡ take 7 (chars s.form.expense_date))
    × ((IsShut (server calls (get_period_closure key))
          × (calls' ≡ get_period_closure key ∷ calls)
          × (is_none s'.form_error ≡ false)
          × (s'.form ≡ s.form))
        ⊎ (¬ IsShut (server calls (get_period_closure key))
            × (calls' ≡ create_expense (stored_as s.form amount) ∷ get_period_closure key ∷ calls)))

-- An expense with a positive amount: the period of its date is looked up first. Either it is found
-- closed and not reopened; then nothing is stored, and an error is shown over the form as it is. Or it is
-- not, the lookup that fails included; then the server is asked to store the expense.
pub handle_create_submit_lem :
    (parse_amount : String → Option ℤ) (today : String) (server : ExpenseServer)
    (calls : List (FinanceCall CreateExpensePayload)) (s : ExpensePage) (amount : ℕ)
    → positive (parse_amount s.form.amount) ≡ some amount
    → Submits server calls s amount (handle_create_submit parse_amount true today server calls s)
unfolding handle_create_submit
handle_create_submit_lem parse_amount today server calls s amount e =
    let key = period_key s.form in
    let lookup = get_period_closure key in
    let named = chars-slice 7 s.form.expense_date in
    let shut_iff = is_closed_iff (server calls lookup) in
    rw e (elim (Bool-cases (is_closed (server calls lookup))) [
      | inl shut ↦ rw shut (key, named, inl (shut_iff.0 shut, refl, refl, refl))
      | inr free ↦ rw free (
        key,
        named,
        inr (
          λ found. absurd (ground (arith, shut_iff.1 found)),
          created-calls server (lookup ∷ calls) s.form amount,
        ),
      )
    ])
