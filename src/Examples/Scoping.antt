-- ===== src/Examples/Scoping.antt =====
-- The property that calls speak for: frontend/src/features/*/api.ts.
use lapor_kos.Prelude.{String, ◌≡◌, refl, true, false, some, none, arith, eq_iff, ◌==◌}
use lapor_kos.Browser.{Browser}
use lapor_kos.Properties.Storage.{active_property_key, get_stored_active_property_id}
use lapor_kos.Calls.{Fields}
use lapor_kos.Calls.Finance.{approve_expense, finance_call}
use lapor_kos.Calls.Transfers.{TransferCall, transfer_call, approve_room_transfer}
use lapor_kos.Calls.Checkouts.{CheckoutCall, checkout_call}
use lapor_kos.Calls.Visitors.{VisitorCall, visitor_call}
use lapor_kos.Calls.Laws.{
  property_header, IsBelow, is_staff_transfer, is_staff_checkout, is_staff_visitor,
  finance_call-own, staff_calls-scoped,
}

abbrev browser : Browser
browser = record {
  has_window = true;
  local_storage = λ k. elim (k == active_property_key) [ true ↦ some "kos-1" | false ↦ none ];
  session_storage = λ k. none;
  cookies = λ k. none;
  is_https = true;
  pathname = "/";
}

abbrev stringify : String → String
stringify s = s

abbrev stringify_fields : Fields → String
stringify_fields fields = "{}"

approve_test :
    (transfer_call stringify stringify_fields (approve_room_transfer "t-1")).endpoint
    ≡ "/api/room-transfers/t-1/approve"
unfolding transfer_call
approve_test = refl

finance_call-own_example :
    let k = finance_call stringify stringify_fields "kos-2" (approve_expense "e-1") in
    IsBelow "kos-2" k × (property_header browser k ≡ some "kos-2")
finance_call-own_example =
    finance_call-own stringify stringify_fields browser "kos-2" (approve_expense "e-1")

staff_calls-scoped_example :
    ((c : TransferCall String)
      → is_staff_transfer c ≡ true
      → property_header browser (transfer_call stringify stringify_fields c) ≡ some "kos-1")
    × ((c : CheckoutCall String)
        → is_staff_checkout c ≡ true
        → property_header browser (checkout_call stringify stringify_fields c) ≡ some "kos-1")
    × ((c : VisitorCall String)
        → is_staff_visitor c ≡ true
        → property_header browser (visitor_call stringify stringify_fields c) ≡ some "kos-1")
unfolding get_stored_active_property_id
staff_calls-scoped_example =
    staff_calls-scoped stringify stringify_fields browser "kos-1" refl
      (ground (arith, eq_iff "kos-1" ""))
