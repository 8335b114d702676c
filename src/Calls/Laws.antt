-- ===== src/Calls/Laws.antt =====
-- Which property the calls of the features speak for.
use lapor_kos.Prelude.{
  String, ◌≡◌, ◌≢◌, refl, ◌∙◌, ◌^^◌, Bool, true, false, Option, some, none, arith,
}
use lapor_kos.Browser.{Browser}
use lapor_kos.Properties.Storage.{get_stored_active_property_id}
use lapor_kos.Api.Options.{build_headers}
use lapor_kos.Api.Options.Laws.{scoped_header}
use lapor_kos.Calls.{Call, Fields}
use lapor_kos.Calls.Transfers.{
  TransferCall, transfer_call, list_my_room_transfers, preview_my_room_transfer,
  create_my_room_transfer, cancel_my_room_transfer, get_my_room_history,
}
use lapor_kos.Calls.Checkouts.{
  CheckoutCall, checkout_call, tenant_list_checkouts, tenant_get_checkout, tenant_create_notice,
}
use lapor_kos.Calls.Visitors.{
  VisitorCall, visitor_call, tenant_list_visitor_permits, tenant_create_visitor_permit,
  tenant_get_visitor_permit, tenant_cancel_visitor_permit, verify_visitor_pass,
}
use lapor_kos.Calls.Finance.{
  FinanceCall, finance_call, get_financial_dashboard, get_receivables_aging, list_expenses,
  get_expense, create_expense, update_expense, approve_expense, pay_expense, delete_expense,
  list_period_closures, get_period_closure, close_period, reopen_period, list_adjustments,
  create_adjustment, approve_adjustment, create_export_job, list_export_jobs, download_export,
}

-- The header of a call that tells the server the property.
abbrev pub property_header : Browser → Call → Option String
property_header b k = build_headers b k.endpoint k.options "x-property-id"

abbrev IsOwn : String → Call → Type 0
IsOwn id k = k.options.headers "x-property-id" ≡ some id

own_header : (b : Browser) (k : Call) (id : String) → IsOwn id k → property_header b k ≡ some id
unfolding build_headers
own_header b k id h = ground arith

module _ {P : Type 0} (stringify : P → String) (stringify_fields : Fields → String) where
  finance_call-IsOwn :
      (id : String) (c : FinanceCall P) → IsOwn id (finance_call stringify stringify_fields id c)
  unfolding finance_call
  finance_call-IsOwn id c = ground arith

-- The path begins with that of the property.
abbrev pub IsBelow : String → Call → Type 0
IsBelow id k = (rest : String) × (k.endpoint ≡ "/api/v1/properties/" ^^ id ^^ rest)

module _ {P : Type 0} (stringify : P → String) (stringify_fields : Fields → String) where
  finance_call-IsBelow :
      (id : String) (c : FinanceCall P) → IsBelow id (finance_call stringify stringify_fields id c)
  unfolding finance_call
  finance_call-IsBelow id (get_financial_dashboard period_start period_end) = (_, refl)
  finance_call-IsBelow id get_receivables_aging = (_, refl)
  finance_call-IsBelow id (list_expenses f) = (_, refl)
  finance_call-IsBelow id (get_expense expense) = (_, refl)
  finance_call-IsBelow id (create_expense payload) = (_, refl)
  finance_call-IsBelow id (update_expense expense payload) = (_, refl)
  finance_call-IsBelow id (approve_expense expense) = (_, refl)
  finance_call-IsBelow id (pay_expense expense payment_method) = (_, refl)
  finance_call-IsBelow id (delete_expense expense) = (_, refl)
  finance_call-IsBelow id list_period_closures = (_, refl)
  finance_call-IsBelow id (get_period_closure period_key) = (_, refl)
  finance_call-IsBelow id (close_period payload) = (_, refl)
  finance_call-IsBelow id (reopen_period period_key reason) = (_, refl)
  finance_call-IsBelow id (list_adjustments period_close_id) = (_, refl)
  finance_call-IsBelow id (create_adjustment payload) = (_, refl)
  finance_call-IsBelow id (approve_adjustment adjustment_id payload) = (_, refl)
  finance_call-IsBelow id (create_export_job payload) = (_, refl)
  finance_call-IsBelow id list_export_jobs = (_, refl)
  finance_call-IsBelow id (download_export job_id) = (_, refl)

-- The path of every call of the finances begins with that of a property, and the call speaks for the
-- same property, whatever property the browser holds as the active one.
pub finance_call-own :
    {P : Type 0} (stringify : P → String) (stringify_fields : Fields → String) (b : Browser)
    (id : String) (c : FinanceCall P)
    → let k = finance_call stringify stringify_fields id c in
      IsBelow id k × (property_header b k ≡ some id)
finance_call-own stringify stringify_fields b id c = (
  finance_call-IsBelow stringify stringify_fields id c,
  own_header b _ id (finance_call-IsOwn stringify stringify_fields id c),
)

-- The calls that the files keep for the staff.
abbrev pub is_staff_transfer : {P : Type 0} → TransferCall P → Bool
is_staff_transfer list_my_room_transfers = false
is_staff_transfer (preview_my_room_transfer req) = false
is_staff_transfer (create_my_room_transfer req) = false
is_staff_transfer (cancel_my_room_transfer id) = false
is_staff_transfer (get_my_room_history start_date end_date) = false
is_staff_transfer _ = true

abbrev pub is_staff_checkout : {P : Type 0} → CheckoutCall P → Bool
is_staff_checkout tenant_list_checkouts = false
is_staff_checkout (tenant_get_checkout id) = false
is_staff_checkout (tenant_create_notice req) = false
is_staff_checkout _ = true

abbrev pub is_staff_visitor : {P : Type 0} → VisitorCall P → Bool
is_staff_visitor (tenant_list_visitor_permits params) = false
is_staff_visitor (tenant_create_visitor_permit req) = false
is_staff_visitor (tenant_get_visitor_permit id) = false
is_staff_visitor (tenant_cancel_visitor_permit id reason) = false
is_staff_visitor (verify_visitor_pass token) = false
is_staff_visitor _ = true

abbrev IsScoped : Call → Type 0
IsScoped k = (k.options.property_scoped ≡ some true) × (k.options.headers "x-property-id" ≡ none)

IsScoped-header :
    (b : Browser) (k : Call) (id : String)
    → get_stored_active_property_id b ≡ some id
    → id ≢ ""
    → IsScoped k
    → property_header b k ≡ some id
IsScoped-header b k id stored full (on, none_given) =
    scoped_header b k.endpoint k.options id (rw on refl) stored full ∙ rw none_given refl

module _ {P : Type 0} (stringify : P → String) (stringify_fields : Fields → String) where
  transfer_call-IsScoped :
      (c : TransferCall P)
      → is_staff_transfer c ≡ true
      → IsScoped (transfer_call stringify stringify_fields c)
  unfolding transfer_call
  transfer_call-IsScoped c h = ground arith

  checkout_call-IsScoped :
      (c : CheckoutCall P)
      → is_staff_checkout c ≡ true
      → IsScoped (checkout_call stringify stringify_fields c)
  unfolding checkout_call
  checkout_call-IsScoped c h = ground arith

  visitor_call-IsScoped :
      (c : VisitorCall P)
      → is_staff_visitor c ≡ true
      → IsScoped (visitor_call stringify stringify_fields c)
  unfolding visitor_call
  visitor_call-IsScoped c h = ground arith

-- Where the browser holds an active property, the calls that the files keep for the staff, of room
-- transfers, checkouts and visitors, speak for it.
pub staff_calls-scoped :
    {P : Type 0} (stringify : P → String) (stringify_fields : Fields → String) (b : Browser)
    (id : String)
    → get_stored_active_property_id b ≡ some id
    → id ≢ ""
    → ((c : TransferCall P)
        → is_staff_transfer c ≡ true
        → property_header b (transfer_call stringify stringify_fields c) ≡ some id)
      × ((c : CheckoutCall P)
          → is_staff_checkout c ≡ true
          → property_header b (checkout_call stringify stringify_fields c) ≡ some id)
      × ((c : VisitorCall P)
          → is_staff_visitor c ≡ true
          → property_header b (visitor_call stringify stringify_fields c) ≡ some id)
staff_calls-scoped s f b id stored full = (
  λ c h. IsScoped-header b _ id stored full (transfer_call-IsScoped s f c h),
  λ c h. IsScoped-header b _ id stored full (checkout_call-IsScoped s f c h),
  λ c h. IsScoped-header b _ id stored full (visitor_call-IsScoped s f c h),
)
