-- ===== src/Forms/Transfer/Laws.antt =====
-- Which calls a submission makes.
use lapor_kos.Prelude.{
  String, ◌≡◌, refl, Bool, true, false, ◌&&◌, not, List, ◌∷◌, arith, ◌==◌, Bool-cases, inl, inr,
}
use lapor_kos.Api.Request.{Outcome, returned, thrown}
use lapor_kos.Api.Action.{Server, Outcome-cases}
use lapor_kos.Calls.Transfers.{
  TransferCall, create_room_transfer, approve_room_transfer, execute_room_transfer,
}
use lapor_kos.Forms.{Submission, is_blank, finished}
use lapor_kos.Forms.Transfer.{
  CreateTransferRequest, RoomTransfer, TransferForm, transfer_request, execute_directly,
  submit_transfer, handle_submit,
}

-- A form that may be sent.
abbrev pub is_complete : TransferForm → Bool
is_complete f = not (f.inputs.selected_room_id == "") && not (is_blank f.reason)

-- What the calls of a submission come to: the transfer is not created; it is created and stays as it
-- is; its approval fails; its execution fails; or all of it is done.
pub data Run (server : Server (TransferCall CreateTransferRequest) RoomTransfer)
    (calls : List (TransferCall CreateTransferRequest)) (direct : Bool)
    (req : CreateTransferRequest) : Bool → List (TransferCall CreateTransferRequest) → Type 0 where
  not_created :
      (m : String)
      → server calls (create_room_transfer req) ≡ thrown m
      → Run server calls direct req false (create_room_transfer req ∷ calls)
  created :
      (t : RoomTransfer)
      → server calls (create_room_transfer req) ≡ returned t
      → direct ≡ false
      → Run server calls direct req true (create_room_transfer req ∷ calls)
  not_approved :
      (t : RoomTransfer) (m : String)
      → server calls (create_room_transfer req) ≡ returned t
      → direct ≡ true
      → server (create_room_transfer req ∷ calls) (approve_room_transfer t.id) ≡ thrown m
      → Run server calls direct req false
          (approve_room_transfer t.id ∷ create_room_transfer req ∷ calls)
  not_executed :
      (t u : RoomTransfer) (m : String)
      → server calls (create_room_transfer req) ≡ returned t
      → direct ≡ true
      → server (create_room_transfer req ∷ calls) (approve_room_transfer t.id) ≡ returned u
      → server
          (approve_room_transfer t.id ∷ create_room_transfer req ∷ calls)
          (execute_room_transfer t.id)
        ≡ thrown m
      → Run server calls direct req false (
          execute_room_transfer t.id
          ∷ approve_room_transfer t.id
          ∷ create_room_transfer req
          ∷ calls)
  executed :
      (t u v : RoomTransfer)
      → server calls (create_room_transfer req) ≡ returned t
      → direct ≡ true
      → server (create_room_transfer req ∷ calls) (approve_room_transfer t.id) ≡ returned u
      → server
          (approve_room_transfer t.id ∷ create_room_transfer req ∷ calls)
          (execute_room_transfer t.id)
        ≡ returned v
      → Run server calls direct req true (
          execute_room_transfer t.id
          ∷ approve_room_transfer t.id
          ∷ create_room_transfer req
          ∷ calls)

module _ (direct_execute : Bool) (f : TransferForm)
    (server : Server (TransferCall CreateTransferRequest) RoomTransfer)
    (calls : List (TransferCall CreateTransferRequest)) (s : Submission)
    (read : String → String) where
  abbrev direct : Bool
  direct = direct_execute && f.is_staff

  -- The run of an action that comes to `o` with the calls `calls'`.
  abbrev Runs : Outcome RoomTransfer × List (TransferCall CreateTransferRequest) → Type 0
  Runs (o, calls') = Run server calls direct (transfer_request f) (finished read o s).done calls'

  execute_directly-Runs :
      (t : RoomTransfer)
      → s.done ≡ false
      → server calls (create_room_transfer (transfer_request f)) ≡ returned t
      → Runs (execute_directly direct t server (create_room_transfer (transfer_request f) ∷ calls))
  execute_directly-Runs t opened e = elim (Bool-cases direct) [
    | inr off ↦ rw off (created t e refl)
    | inl on ↦
        rw on
          (elim (Outcome-cases (
            server (create_room_transfer (transfer_request f) ∷ calls)
              (approve_room_transfer t.id))) [
                | inr (m, e') ↦ rw (e', opened) (not_approved t m e refl e')
                | inl (u, e') ↦
                    rw e'
                      (elim (Outcome-cases (
                        server
                          (approve_room_transfer t.id
                            ∷ create_room_transfer (transfer_request f)
                            ∷ calls)
                          (execute_room_transfer t.id))) [
                            | inr (m, e'') ↦ rw (e'', opened) (not_executed t u m e refl e' e'')
                            | inl (v, e'') ↦ rw e'' (executed t u v e refl e' e'')
                          ])
              ])
  ]

  submit-Run : s.done ≡ false → Runs (submit_transfer direct_execute f server calls)
  submit-Run opened =
      elim (Outcome-cases (server calls (create_room_transfer (transfer_request f)))) [
        | inr (m, e) ↦ rw (e, opened) (not_created m e)
        | inl (t, e) ↦ rw e (execute_directly-Runs t opened e)
      ]

-- The submission of a form that is complete makes the calls of one of these runs, each after the one
-- before has succeeded, and closes the dialog exactly where all of them have: a transfer that is not
-- approved or not executed stays created.
pub handle_submit-Run :
    (direct_execute : Bool) (f : TransferForm)
    (server : Server (TransferCall CreateTransferRequest) RoomTransfer)
    (calls : List (TransferCall CreateTransferRequest)) (s : Submission)
    → is_complete f ≡ true
    → s.done ≡ false
    → let (s', calls') = handle_submit direct_execute f server calls s in
      Run server calls (direct_execute && f.is_staff) (transfer_request f) s'.done calls'
unfolding handle_submit
handle_submit-Run direct_execute f server calls s complete opened =
    let chosen : (f.inputs.selected_room_id == "") ≡ false = ground arith in
    let told : is_blank f.reason ≡ false = ground arith in
    rw (chosen, told) (submit-Run direct_execute f server calls s _ opened)
