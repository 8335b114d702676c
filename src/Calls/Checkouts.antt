-- ===== src/Calls/Checkouts.antt =====
-- frontend/src/features/checkouts/api.ts
use lapor_kos.Prelude.{String, ℕ, Option, [], ◌∷◌, ◌^^◌, true}
use lapor_kos.Calls.{
  Call, call, with_method, with_params, with_body, scoped, given_params, number_param, Fields,
  text_field, optional_field,
}

-- The fields of `params` of `listCheckouts`.
pub record CheckoutFilter : Type 0 where
  pub status : Option String
  pub tenant_id : Option String
  pub room_id : Option String
  pub page : Option ℕ
  pub page_size : Option ℕ

pub data CheckoutCall (P : Type 0) : Type 0 where
  list_checkouts : (params : CheckoutFilter) → CheckoutCall P
  get_checkout : (id : String) → CheckoutCall P
  create_checkout : (req : P) → CheckoutCall P
  record_inspections : (id : String) (req : P) → CheckoutCall P
  preview_settlement : (id : String) → CheckoutCall P
  approve_settlement : (id : String) (notes : Option String) → CheckoutCall P
  execute_checkout : (id : String) (req : P) → CheckoutCall P
  cancel_checkout : (id reason : String) → CheckoutCall P
  override_room_status : (id : String) (req : P) → CheckoutCall P
  tenant_list_checkouts : CheckoutCall P
  tenant_get_checkout : (id : String) → CheckoutCall P
  tenant_create_notice : (req : P) → CheckoutCall P

module _ {P : Type 0} (stringify : P → String) (stringify_fields : Fields → String) where
  unfoldable pub checkout_call : CheckoutCall P → Call
  checkout_call (list_checkouts f) = scoped true (
      with_params
        (given_params (
          ("status", f.status)
          ∷ ("tenant_id", f.tenant_id)
          ∷ ("room_id", f.room_id)
          ∷ ("page", number_param f.page)
          ∷ ("page_size", number_param f.page_size)
          ∷ []))
        (call "/api/checkouts"))
  checkout_call (get_checkout id) = scoped true (call ("/api/checkouts/" ^^ id))
  checkout_call (create_checkout req) =
      scoped true (with_body (stringify req) (with_method "POST" (call "/api/checkouts")))
  checkout_call (record_inspections id req) = scoped true (
      with_body (stringify req)
        (with_method "POST" (call ("/api/checkouts/" ^^ id ^^ "/inspections"))))
  checkout_call (preview_settlement id) =
      scoped true (call ("/api/checkouts/" ^^ id ^^ "/settlement-preview"))
  checkout_call (approve_settlement id notes) = scoped true (
      with_body (stringify_fields (("notes", optional_field notes) ∷ []))
        (with_method "POST" (call ("/api/checkouts/" ^^ id ^^ "/approve"))))
  checkout_call (execute_checkout id req) = scoped true (
      with_body (stringify req) (with_method "POST" (call ("/api/checkouts/" ^^ id ^^ "/execute"))))
  checkout_call (cancel_checkout id reason) = scoped true (
      with_body (stringify_fields (("reason", text_field reason) ∷ []))
        (with_method "POST" (call ("/api/checkouts/" ^^ id ^^ "/cancel"))))
  checkout_call (override_room_status id req) = scoped true (
      with_body (stringify req)
        (with_method "POST" (call ("/api/checkouts/" ^^ id ^^ "/room-override"))))
  checkout_call tenant_list_checkouts = call "/api/checkouts/my"
  checkout_call (tenant_get_checkout id) = call ("/api/checkouts/my/" ^^ id)
  checkout_call (tenant_create_notice req) =
      with_body (stringify req) (with_method "POST" (call "/api/checkouts/my"))
