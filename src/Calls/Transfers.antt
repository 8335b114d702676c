-- ===== src/Calls/Transfers.antt =====
-- frontend/src/features/room-transfers/api.ts
use lapor_kos.Prelude.{String, Option, [], ◌∷◌, ◌^^◌, true}
use lapor_kos.Calls.{
  Call, call, with_method, with_params, with_body, scoped, given_params, Fields, text_field,
}

pub data TransferCall (P : Type 0) : Type 0 where
  list_room_transfers : (status : Option String) → TransferCall P
  get_room_transfer : (id : String) → TransferCall P
  preview_room_transfer create_room_transfer : (req : P) → TransferCall P
  approve_room_transfer : (id : String) → TransferCall P
  reject_room_transfer : (id reason : String) → TransferCall P
  execute_room_transfer cancel_room_transfer : (id : String) → TransferCall P
  get_tenant_room_history :
      (tenant_id : String) (start_date end_date : Option String) → TransferCall P
  list_my_room_transfers : TransferCall P
  preview_my_room_transfer create_my_room_transfer : (req : P) → TransferCall P
  cancel_my_room_transfer : (id : String) → TransferCall P
  get_my_room_history : (start_date end_date : Option String) → TransferCall P

module _ {P : Type 0} (stringify : P → String) (stringify_fields : Fields → String) where
  unfoldable pub transfer_call : TransferCall P → Call
  transfer_call (list_room_transfers status) =
      scoped true
        (with_params (given_params (("status", status) ∷ [])) (call "/api/room-transfers"))
  transfer_call (get_room_transfer id) = scoped true (call ("/api/room-transfers/" ^^ id))
  transfer_call (preview_room_transfer req) =
      scoped true
        (with_body (stringify req) (with_method "POST" (call "/api/room-transfers/preview")))
  transfer_call (create_room_transfer req) =
      scoped true (with_body (stringify req) (with_method "POST" (call "/api/room-transfers")))
  transfer_call (approve_room_transfer id) =
      scoped true (with_method "PUT" (call ("/api/room-transfers/" ^^ id ^^ "/approve")))
  transfer_call (reject_room_transfer id reason) = scoped true (
      with_body (stringify_fields (("reason", text_field reason) ∷ []))
        (with_method "PUT" (call ("/api/room-transfers/" ^^ id ^^ "/reject"))))
  transfer_call (execute_room_transfer id) =
      scoped true (with_method "POST" (call ("/api/room-transfers/" ^^ id ^^ "/execute")))
  transfer_call (cancel_room_transfer id) =
      scoped true (with_method "POST" (call ("/api/room-transfers/" ^^ id ^^ "/cancel")))
  transfer_call (get_tenant_room_history tenant_id start_date end_date) = scoped true (
      with_params (given_params (("start_date", start_date) ∷ ("end_date", end_date) ∷ []))
        (call ("/api/tenants/" ^^ tenant_id ^^ "/room-history")))
  transfer_call list_my_room_transfers = call "/api/room-transfers/my"
  transfer_call (preview_my_room_transfer req) =
      with_body (stringify req) (with_method "POST" (call "/api/room-transfers/my/preview"))
  transfer_call (create_my_room_transfer req) =
      with_body (stringify req) (with_method "POST" (call "/api/room-transfers/my"))
  transfer_call (cancel_my_room_transfer id) =
      with_method "POST" (call ("/api/room-transfers/my/" ^^ id ^^ "/cancel"))
  transfer_call (get_my_room_history start_date end_date) =
      with_params (given_params (("start_date", start_date) ∷ ("end_date", end_date) ∷ []))
        (call "/api/tenants/me/room-history")
