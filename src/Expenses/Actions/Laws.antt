-- ===== src/Expenses/Actions/Laws.antt =====
-- What may be done to an expense, and by whom.
use lapor_kos.Prelude.{
  String, ◌≡◌, refl, Bool, true, false, not, ◌&&◌, ◌||◌, some, List, ◌∷◌, arith, inl, inr,
  Bool-cases, if◌then◌else◌,
}
use lapor_kos.Api.Request.{Outcome, returned, thrown}
use lapor_kos.Api.Action.{Outcome-cases}
use lapor_kos.Authorization.Capabilities.{Capability, capability, expense_approve, expense_write}
use lapor_kos.Calls.Finance.{FinanceCall, list_expenses}
use lapor_kos.Expenses.{ExpenseServer, CreateExpensePayload, expense_filter}
use lapor_kos.Expenses.Actions.{
  ItemAction, approve, pay, delete, is_offered, ExpensesPage, action_call, told, asks, handle,
}

abbrev is_approval : ItemAction → Bool
is_approval approve = true
is_approval pay = false
is_approval delete = false

-- Once an expense is approved it is offered its payment at most, and once it is paid nothing; without the
-- right to approve, a draft is not offered its approval, and without the right to write nothing else is.
pub is_offered_lem :
    (can : Capability → Bool) (status : String) (a : ItemAction)
    → (is_offered can "paid" a ≡ false)
      × (is_offered can "approved" delete ≡ false)
      × (is_offered can "approved" approve ≡ false)
      × (is_offered can status a ≡ (
          (can (capability expense_approve)
            && is_offered (λ k. true) status approve
            && is_approval a)
          || (can (capability expense_write)
              && is_offered (λ k. true) status a
              && not (is_approval a))))
unfolding is_offered
is_offered_lem can status approve = ground arith
is_offered_lem can status pay = ground arith
is_offered_lem can status delete = ground arith

abbrev is_done : {J : Type 0} → Outcome J → Bool
is_done (returned a) = true
is_done (thrown m) = false

-- Each action sends its one call for the expense, with a property and, for a deletion, only if it is
-- confirmed; where it succeeds the list is asked for again with the same choices and no error is left.
pub handle_lem :
    (a : ItemAction) (has_property confirmed : Bool) (id : String) (server : ExpenseServer)
    (calls : List (FinanceCall CreateExpensePayload)) (s : ExpensesPage)
    → let sends = has_property && asks a confirmed in
      let (s', calls') = handle a has_property confirmed id server calls s in
      let call = action_call a id in
      (calls' ≡ (
        if sends
        then if is_done (server calls call)
          then list_expenses (expense_filter s.choice) ∷ call ∷ calls
          else call ∷ calls
        else calls))
      × (s'.success_message
          ≡ (if sends && is_done (server calls call) then some (told a) else s.success_message))
      × (s'.choice ≡ s.choice)
unfolding handle
handle_lem a has_property confirmed id server calls s =
    elim (Bool-cases (has_property && asks a confirmed)) [
      | inl sends ↦ elim (Outcome-cases (server calls (action_call a id))) [
        | inl (o, e) ↦ rw (sends, e) (refl, refl, refl)
        | inr (m, e) ↦ rw (sends, e) (refl, refl, refl)
      ]
      | inr stays ↦ rw stays (refl, refl, refl)
    ]
