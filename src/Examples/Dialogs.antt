-- ===== src/Examples/Dialogs.antt =====
-- The dialogs: frontend/src/features/*/components.
use lapor_kos.Prelude.{
  String, ℕ, ◌+◌, ◌*◌, ◌≤◌, ◌<◌, ◌≡◌, refl, ◌↔◌, true, false, ◌&&◌, Option, none, some, List, [],
  ◌∷◌, is_none, arith, eq_iff, ◌==◌, if◌then◌else◌,
}
use lapor_kos.Api.Request.{Outcome, returned, thrown}
use lapor_kos.Api.Action.{Server}
use lapor_kos.Invitations.Chars.{is_space}
use lapor_kos.Calls.Transfers.{TransferCall, approve_room_transfer}
use lapor_kos.Forms.{Submission, trim_text}
use lapor_kos.Forms.Preview.{Inputs, Preview, opened, run_effect, start_fetch, answered}
use lapor_kos.Forms.Preview.Laws.{IsCurrent, start, next, changed, fired, answer, Reach-IsCurrent}
use lapor_kos.Forms.Transfer.{
  CreateTransferRequest, RoomTransfer, TransferForm, transfer_request, handle_submit,
}
use lapor_kos.Forms.Transfer.Laws.{Run, handle_submit-Run}
use lapor_kos.Forms.Settlement.{CheckoutServer, SettlementForm, handle_execute}
use lapor_kos.Forms.Settlement.Laws.{is_justified, execution, is_returned, handle_execute_lem}
use lapor_kos.Forms.Inspection.{Item, new_item}
use lapor_kos.Forms.Permit.{LocalTime, PermitForm, permit_error}
use lapor_kos.Forms.Permit.Laws.{IsFilled, permit_error-none_iff}
use lapor_kos.Notifications.{Notification, Bell, handle_toggle_opt_out}

abbrev room_102 : Inputs
room_102 = record { selected_room_id = "102"; effective_date = "2025-01-05"; move_fee = 0 }

-- The costs of a move to a room, which only room 102 has.
abbrev costs : Inputs → Outcome ℕ
costs i = if i.selected_room_id == "102" then returned 500 else thrown "Kamar terisi"

abbrev asking : Preview ℕ
asking = start_fetch (run_effect room_102 (opened "2025-01-05"))

Reach-IsCurrent_example : IsCurrent costs (answered 1 (returned 500) asking)
unfolding run_effect start_fetch
Reach-IsCurrent_example =
    Reach-IsCurrent costs "2025-01-05" (answered 1 (returned 500) asking)
      (next (next (next start (changed room_102)) fired) (answer 1 (returned 500) (λ e. refl)))

abbrev moving : TransferForm
moving = record {
  tenant_id = "ani";
  contract_id = "c-1";
  is_staff = true;
  inputs = room_102;
  reason = " Dekat dapur ";
}

abbrev idle_dialog : Submission
idle_dialog = record { busy = false; error = none; done = false }

-- A server that approves nothing.
abbrev no_approval : Server (TransferCall CreateTransferRequest) RoomTransfer
no_approval calls (approve_room_transfer id) = thrown "Tidak berwenang"
no_approval calls _ = returned (record { id = "t-1" })

handle_submit-Run_example :
    let (s', calls') = handle_submit true moving no_approval [] idle_dialog in
    Run no_approval [] (true && true) (transfer_request moving) s'.done calls'
unfolding trim_text is_space
handle_submit-Run_example = handle_submit-Run true moving no_approval [] idle_dialog refl refl

abbrev leaving : SettlementForm
leaving = record {
  checkout_id = "k-1";
  key_returned = false;
  actual_date = "2025-01-31";
  target_room_status = "cleaning";
  room_override = true;
  override_reason = "Kunci hilang";
  cancel_reason = "";
}

abbrev accepting : CheckoutServer ℕ
accepting calls c = returned 1

handle_execute_lem_example :
    let (s', calls') = handle_execute leaving accepting [] idle_dialog in
    (calls' ≡ (if is_justified leaving then execution leaving ∷ [] else []))
    × (s'.done ≡ (is_justified leaving && is_returned (accepting [] (execution leaving))))
    × (is_none s'.error ≡ (is_justified leaving && is_returned (accepting [] (execution leaving))))
handle_execute_lem_example = handle_execute_lem leaving accepting [] idle_dialog refl

abbrev items : List Item
items = record (new_item "Kasur") { repair_cost_minor = 300 } ∷ new_item "Lemari" ∷ []

abbrev visit : PermitForm
visit = record {
  guest_name = "Sari";
  guest_phone = "";
  guest_id_last4 = "";
  relationship = "Teman";
  purpose = "Belajar";
  is_overnight = false;
  start_time = "2025-01-05T10:00";
  end_time = "2025-02-05T21:00";
  total_guests = 1;
  vehicle_type = "tidak_ada";
  vehicle_number = "";
}

abbrev begins : LocalTime
begins = record { time = 36000000; year = 2025; month = 0; date = 5; hours = 10; minutes = 0 }

-- A month later.
abbrev ends : LocalTime
ends = record { time = 2754000000; year = 2025; month = 1; date = 5; hours = 21; minutes = 0 }

abbrev parse : String → Option LocalTime
parse s = if s == "2025-01-05T10:00" then some begins else some ends

-- A visit of a month passes for one of a day.
month_apart : permit_error parse visit ≡ none
unfolding permit_error trim_text is_space
month_apart = refl

visit-IsFilled : IsFilled visit
unfolding trim_text is_space
visit-IsFilled = (
  refl,
  refl,
  ground (arith, eq_iff "2025-01-05T10:00" ""),
  ground (arith, eq_iff "2025-02-05T21:00" ""),
)

permit_error-none_iff_example : (permit_error parse visit ≡ none) ↔ (
    (begins.time < ends.time)
    × (visit.is_overnight ≡ false
        → (ends.hours * 60 + ends.minutes ≤ 22 * 60) × (ends.date ≡ begins.date))
    × (visit.is_overnight ≡ true → ends.time ≤ begins.time + 73 * 3600000))
permit_error-none_iff_example =
    permit_error-none_iff parse visit begins ends visit-IsFilled (omega arith) refl refl

toggle_test :
    (handle_toggle_opt_out "billing" ("system" ∷ "billing" ∷ []) ≡ "system" ∷ [])
    × (handle_toggle_opt_out "billing" ("system" ∷ []) ≡ "system" ∷ "billing" ∷ [])
unfolding handle_toggle_opt_out
toggle_test = (refl, refl)

abbrev due : Notification
due = record { id = "n-1"; is_read = false; action_url = some "/payments" }

abbrev bell : Bell
bell = record { is_open = true; unread_count = 2; recent = due ∷ []; is_loading = false }
