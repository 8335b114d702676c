-- ===== src/Forms/Settlement.antt =====
-- frontend/src/features/checkouts/components/SettlementReviewModal.tsx: the three buttons. An answer
-- of the server is of a type `C`.
pub mod Laws
use lapor_kos.Prelude.{String, Bool, not, ◌&&◌, none, List, if◌then◌else◌}
use lapor_kos.Api.Request.{Outcome}
use lapor_kos.Api.Action.{Server, ask}
use lapor_kos.Calls.Checkouts.{CheckoutCall, approve_settlement, execute_checkout, cancel_checkout}
use lapor_kos.Forms.{Submission, is_blank, trim_text, refused, finished, own_message}

pub record ExecuteCheckoutRequest : Type 0 where
  pub actual_checkout_date : String
  pub target_room_status : String
  pub room_override : Bool
  pub room_override_reason : String

-- What the dialog reads of the checkout, and what is filled in.
pub record SettlementForm : Type 0 where
  pub checkout_id : String
  pub key_returned : Bool
  pub actual_date : String
  pub target_room_status : String
  pub room_override : Bool
  pub override_reason : String
  pub cancel_reason : String

abbrev pub execute_request : SettlementForm → ExecuteCheckoutRequest
execute_request f = record {
  actual_checkout_date = f.actual_date;
  target_room_status = f.target_room_status;
  room_override = f.room_override;
  room_override_reason = trim_text f.override_reason;
}

abbrev pub CheckoutServer : Type 0 → Type 0
CheckoutServer C = Server (CheckoutCall ExecuteCheckoutRequest) C

module _ {C : Type 0} where
  -- One call, and what the dialog shows of it.
  abbrev pub submit :
      CheckoutCall ExecuteCheckoutRequest
      → CheckoutServer C
      → List (CheckoutCall ExecuteCheckoutRequest)
      → Submission
      → Submission × List (CheckoutCall ExecuteCheckoutRequest)
  submit call server calls s =
      let (o, calls') = ask call server calls in (finished own_message o s, calls')

  unfoldable pub handle_approve :
      SettlementForm
      → CheckoutServer C
      → List (CheckoutCall ExecuteCheckoutRequest)
      → Submission
      → Submission × List (CheckoutCall ExecuteCheckoutRequest)
  handle_approve f server calls s = submit (approve_settlement f.checkout_id none) server calls s

  unfoldable pub handle_execute :
      SettlementForm
      → CheckoutServer C
      → List (CheckoutCall ExecuteCheckoutRequest)
      → Submission
      → Submission × List (CheckoutCall ExecuteCheckoutRequest)
  handle_execute f server calls s =
      if not f.key_returned && not f.room_override
      then (
        refused
            "Kunci kamar belum diserahterimakan! Harap aktifkan centang override dan isi alasannya untuk melanjutkan."
            s,
        calls,
      )
      else if f.room_override && is_blank f.override_reason
      then (refused "Alasan override status kamar wajib diisi." s, calls)
      else submit (execute_checkout f.checkout_id (execute_request f)) server calls s

  unfoldable pub handle_cancel :
      SettlementForm
      → CheckoutServer C
      → List (CheckoutCall ExecuteCheckoutRequest)
      → Submission
      → Submission × List (CheckoutCall ExecuteCheckoutRequest)
  handle_cancel f server calls s =
      if is_blank f.cancel_reason
      then (refused "Mohon isi alasan pembatalan checkout." s, calls)
      else submit (cancel_checkout f.checkout_id (trim_text f.cancel_reason)) server calls s
