-- ===== src/Expenses/Actions.antt =====
-- frontend/src/app/(dashboard)/expenses/page.tsx: the approval, the payment and the deletion of an
-- expense, and to whom they are offered. `can` is the check of a capability of `useAuthorization`.
pub mod Laws
use lapor_kos.Prelude.{
  String, Bool, true, false, not, ◌&&◌, ◌||◌, Option, none, some, List, ◌∷◌, ◌==◌, if◌then◌else◌,
}
use lapor_kos.Api.Request.{Outcome, returned, thrown}
use lapor_kos.Api.Action.{ask}
use lapor_kos.Authorization.Capabilities.{Capability, capability, expense_approve, expense_write}
use lapor_kos.Calls.Finance.{
  FinanceCall, approve_expense, pay_expense, delete_expense, list_expenses,
}
use lapor_kos.Expenses.{Choice, expense_filter, ExpenseServer, CreateExpensePayload, Answer}

pub data ItemAction : Type 0 where
  approve pay delete : ItemAction

-- Whether the button of an action is shown, by the status of the expense.
unfoldable pub is_offered : (Capability → Bool) → String → ItemAction → Bool
is_offered can status approve =
    can (capability expense_approve) && (status == "draft" || status == "pending_approval")
is_offered can status pay = can (capability expense_write) && status == "approved"
is_offered can status delete =
    can (capability expense_write)
    && (status == "draft" || (status == "pending_approval" || status == "rejected"))

pub record ExpensesPage : Type 0 where
  pub choice : Choice
  pub is_loading : Bool
  pub error : Option String
  pub success_message : Option String

abbrev pub action_call : ItemAction → String → FinanceCall CreateExpensePayload
action_call approve id = approve_expense id
action_call pay id = pay_expense id none
action_call delete id = delete_expense id

abbrev pub told : ItemAction → String
told approve = "Pengeluaran berhasil disetujui"
told pay = "Pengeluaran berhasil ditandai telah dibayar"
told delete = "Pengeluaran berhasil dihapus"

-- The call, and what comes of it: the list is loaded again, which is not awaited.
abbrev pub ended :
    ItemAction
    → Outcome Answer
    → List (FinanceCall CreateExpensePayload)
    → ExpensesPage
    → ExpensesPage × List (FinanceCall CreateExpensePayload)
ended a (returned _) calls s = (
  record s { success_message = some (told a); is_loading = true; error = none },
  list_expenses (expense_filter s.choice) ∷ calls,
)
ended a (thrown m) calls s = (record s { error = some m }, calls)

abbrev pub asks : ItemAction → Bool → Bool
asks approve confirmed = true
asks pay confirmed = true
asks delete confirmed = confirmed

-- `handleApprove`, `handlePay` and `handleDelete`; `confirmed` is the answer of `confirm`, which only
-- the deletion asks for.
unfoldable pub handle :
    ItemAction
    → Bool
    → Bool
    → String
    → ExpenseServer
    → List (FinanceCall CreateExpensePayload)
    → ExpensesPage
    → ExpensesPage × List (FinanceCall CreateExpensePayload)
handle a has_property confirmed id server calls s =
    if not (has_property && asks a confirmed)
    then (s, calls)
    else let (o, calls') = ask (action_call a id) server calls in ended a o calls' s
