-- ===== src/Forms/Preview.antt =====
-- frontend/src/features/room-transfers/components/RoomTransferModal.tsx: the effect that previews the
-- costs. Each run of the effect has a number; its flag `isMounted` holds while no later run has
-- begun.
pub mod Laws
use lapor_kos.Prelude.{
  String, ℕ, ◌+◌, Bool, true, false, ◌&&◌, ◌||◌, Option, none, some, ◌==◌, eqb, if◌then◌else◌,
}
use lapor_kos.Api.Request.{Outcome, returned, thrown}
use lapor_kos.Forms.{message_or}

-- What the effect depends on. The tenant and the contract do not change while the dialog is there.
pub record Inputs : Type 0 where
  pub selected_room_id : String
  pub effective_date : String
  pub move_fee : ℕ

-- How far the latest run has come: it had nothing to do, its timer runs, it awaits an answer, or it
-- is over.
pub data Phase : Type 0 where
  idle waiting asked over : Phase

pub record Preview (C : Type 0) : Type 0 where
  pub inputs : Inputs
  pub number : ℕ
  pub phase : Phase
  pub is_loading : Bool
  pub result : Option C
  pub error : Option String

abbrev is_waiting : Phase → Bool
is_waiting waiting = true
is_waiting _ = false

abbrev is_asked : Phase → Bool
is_asked asked = true
is_asked _ = false

module _ {C : Type 0} where
  -- The dialog is opened: no room is selected.
  abbrev pub opened : String → Preview C
  opened today = record {
    inputs = record { selected_room_id = ""; effective_date = today; move_fee = 0 };
    number = 0;
    phase = idle;
    is_loading = false;
    result = none;
    error = none;
  }

  -- An input has changed: the clean-up of the last run, and the next run.
  unfoldable pub run_effect : Inputs → Preview C → Preview C
  run_effect inputs s =
      if inputs.selected_room_id == "" || inputs.effective_date == ""
      then record s {
        inputs = inputs;
        number = s.number + 1;
        phase = idle;
        result = none;
        error = none;
      }
      else record s { inputs = inputs; number = s.number + 1; phase = waiting }

  -- The timer of the latest run goes off; the clean-up has cleared the others.
  unfoldable pub start_fetch : Preview C → Preview C
  start_fetch s =
      if is_waiting s.phase then record s { phase = asked; is_loading = true; error = none } else s

  abbrev settled : Outcome C → Preview C → Preview C
  settled (returned result) s = record s { phase = over; is_loading = false; result = some result }
  settled (thrown message) s = record s {
    phase = over;
    is_loading = false;
    result = none;
    error = some (message_or message "Gagal menghitung preview biaya");
  }

  -- The answer of a run comes in, which counts only while the run is the latest.
  unfoldable pub answered : ℕ → Outcome C → Preview C → Preview C
  answered n outcome s = if eqb n s.number && is_asked s.phase then settled outcome s else s
