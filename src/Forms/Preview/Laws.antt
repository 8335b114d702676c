-- ===== src/Forms/Preview/Laws.antt =====
-- Which preview is shown.
use lapor_kos.Prelude.{String, ℕ, ◌≡◌, refl, true, false, Option, none, some, arith}
use lapor_kos.Api.Request.{Outcome, returned, thrown}
use lapor_kos.Forms.{message_or}
use lapor_kos.Forms.Preview.{
  Inputs, idle, waiting, asked, over, Preview, opened, run_effect, start_fetch, answered,
}

module _ {C : Type 0} where
  -- What an answer shows.
  abbrev pub shown_result : Outcome C → Option C
  shown_result (returned result) = some result
  shown_result (thrown message) = none

  abbrev pub shown_error : Outcome C → Option String
  shown_error (returned result) = none
  shown_error (thrown message) = some (message_or message "Gagal menghitung preview biaya")

  -- Nothing is shown where nothing can be asked; while an answer is awaited, the dialog says so; and
  -- then it shows the server's answer for the inputs that stand in the form.
  abbrev pub IsCurrent : (Inputs → Outcome C) → Preview C → Type 0
  IsCurrent server s = elim s.phase [
    | idle ↦ (s.result ≡ none) × (s.error ≡ none)
    | waiting ↦ Unit
    | asked ↦ (s.is_loading ≡ true) × (s.error ≡ none)
    | over ↦
        (s.is_loading ≡ false)
        × (s.result ≡ shown_result (server s.inputs))
        × (s.error ≡ shown_error (server s.inputs))
  ]

  -- One thing that happens: an input changes, the timer goes off, or a run is answered, the latest
  -- one as the server answers its inputs.
  pub data Step (server : Inputs → Outcome C) : Preview C → Preview C → Type 0 where
    changed : {s : Preview C} (inputs : Inputs) → Step server s (run_effect inputs s)
    fired : {s : Preview C} → Step server s (start_fetch s)
    answer :
        {s : Preview C} (n : ℕ) (outcome : Outcome C)
        → (n ≡ s.number → outcome ≡ server s.inputs)
        → Step server s (answered n outcome s)

  pub data Reach (server : Inputs → Outcome C) (today : String) : Preview C → Type 0 where
    start : Reach server today (opened today)
    next : {s t : Preview C} → Reach server today s → Step server s t → Reach server today t

  answered-IsCurrent :
      (server : Inputs → Outcome C) (s : Preview C) (n : ℕ) (outcome : Outcome C)
      → (n ≡ s.number → outcome ≡ server s.inputs)
      → IsCurrent server s
      → IsCurrent server (answered n outcome s)
  unfolding answered
  answered-IsCurrent server s n (returned r) h i = ground (arith, h)
  answered-IsCurrent server s n (thrown m) h i = ground (arith, h)

  run_effect-IsCurrent :
      (server : Inputs → Outcome C) (s : Preview C) (inputs : Inputs)
      → IsCurrent server (run_effect inputs s)
  unfolding run_effect
  run_effect-IsCurrent server s inputs = ground arith

  start_fetch-IsCurrent :
      (server : Inputs → Outcome C) (s : Preview C)
      → IsCurrent server s
      → IsCurrent server (start_fetch s)
  unfolding start_fetch
  start_fetch-IsCurrent server s i = ground arith

  step-IsCurrent :
      (server : Inputs → Outcome C) {s t : Preview C}
      → IsCurrent server s
      → Step server s t
      → IsCurrent server t
  step-IsCurrent server {s = s} i (changed inputs) = run_effect-IsCurrent server s inputs
  step-IsCurrent server {s = s} i fired = start_fetch-IsCurrent server s i
  step-IsCurrent server {s = s} i (answer n outcome h) = answered-IsCurrent server s n outcome h i

-- Whatever inputs are changed and in whatever order the runs are answered: once the latest run is
-- over, the preview or the error that is shown is the server's answer for the inputs of the form;
-- and where no room or date is chosen, neither is shown.
pub Reach-IsCurrent :
    {C : Type 0} (server : Inputs → Outcome C) (today : String) (s : Preview C)
    → Reach server today s
    → IsCurrent server s
Reach-IsCurrent server today s start = (refl, refl)
Reach-IsCurrent server today s (next r step) =
    step-IsCurrent server (Reach-IsCurrent server today _ r) step

-- If the room is taken back while an answer is awaited, the dialog says that it is loading, and
-- goes on to do so when the answer comes in.
pub cleared_keeps_loading :
    {C : Type 0} (s : Preview C) (date : String) (fee n : ℕ) (outcome : Outcome C)
    → s.phase ≡ asked
    → s.is_loading ≡ true
    → let cleared =
        run_effect (record { selected_room_id = ""; effective_date = date; move_fee = fee }) s in
      (answered n outcome cleared).is_loading ≡ true
unfolding run_effect answered
cleared_keeps_loading s date fee n outcome asking loading = ground arith
