-- ===== src/Forms/Transfer.antt =====
-- frontend/src/features/room-transfers/components/RoomTransferModal.tsx: the rooms that can be
-- chosen, and the submission. What a call answers is read for the id of the transfer alone.
pub mod Laws
use lapor_kos.Prelude.{String, ℕ, Bool, not, ◌&&◌, List, [], ◌==◌, filter, if◌then◌else◌}
use lapor_kos.Api.Request.{Outcome}
use lapor_kos.Api.Action.{Action, Server, pure, ask, ◌>>=◌, ◌>>◌}
use lapor_kos.Calls.Transfers.{
  TransferCall, create_room_transfer, approve_room_transfer, execute_room_transfer,
}
use lapor_kos.Rooms.{Room}
use lapor_kos.Forms.{Submission, is_blank, trim_text, refused, finished, message_or}
use lapor_kos.Forms.Preview.{Inputs}

pub record CreateTransferRequest : Type 0 where
  pub tenant_id : String
  pub contract_id : String
  pub to_room_id : String
  pub effective_date : String
  pub reason : String
  pub move_fee_minor : ℕ

pub record RoomTransfer : Type 0 where
  pub id : String

-- The properties of the dialog and what is filled in.
pub record TransferForm : Type 0 where
  pub tenant_id : String
  pub contract_id : String
  pub is_staff : Bool
  pub inputs : Inputs
  pub reason : String

-- `selectableRooms`
abbrev pub selectable_rooms : String → List Room → List Room
selectable_rooms current_room_number rooms =
    filter (λ r. not (r.room_number == current_room_number)) rooms

abbrev pub transfer_request : TransferForm → CreateTransferRequest
transfer_request f = record {
  tenant_id = f.tenant_id;
  contract_id = f.contract_id;
  to_room_id = f.inputs.selected_room_id;
  effective_date = f.inputs.effective_date;
  reason = trim_text f.reason;
  move_fee_minor = f.inputs.move_fee;
}

abbrev pub TransferAction : Type 0 → Type 0
TransferAction A = Action (TransferCall CreateTransferRequest) RoomTransfer A

abbrev pub execute_directly : Bool → RoomTransfer → TransferAction RoomTransfer
execute_directly direct transfer =
    if direct
    then (do ask (approve_room_transfer transfer.id); ask (execute_room_transfer transfer.id))
    else pure transfer

-- The `try` of `handleSubmit`.
abbrev pub submit_transfer : Bool → TransferForm → TransferAction RoomTransfer
submit_transfer direct_execute f = do
  transfer ← ask (create_room_transfer (transfer_request f))
  execute_directly (direct_execute && f.is_staff) transfer

-- `handleSubmit`, with the calls that were made before it and those after.
unfoldable pub handle_submit :
    Bool
    → TransferForm
    → Server (TransferCall CreateTransferRequest) RoomTransfer
    → List (TransferCall CreateTransferRequest)
    → Submission
    → Submission × List (TransferCall CreateTransferRequest)
handle_submit direct_execute f server calls s =
    if f.inputs.selected_room_id == ""
    then (refused "Pilih kamar baru terlebih dahulu" s, calls)
    else if is_blank f.reason
    then (refused "Alasan pindah kamar wajib diisi" s, calls)
    else let (o, calls') = submit_transfer direct_execute f server calls in
      (finished (λ m. message_or m "Gagal memproses perpindahan kamar") o s, calls')
