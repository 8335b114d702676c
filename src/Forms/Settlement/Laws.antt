-- ===== src/Forms/Settlement/Laws.antt =====
-- When a checkout is executed.
use lapor_kos.Prelude.{
  ◌≡◌, Bool, true, false, ◌&&◌, ◌||◌, not, List, ◌∷◌, arith, ◌==◌, is_none, if◌then◌else◌,
}
use lapor_kos.Api.Request.{Outcome, returned, thrown}
use lapor_kos.Calls.Checkouts.{CheckoutCall, execute_checkout}
use lapor_kos.Forms.{Submission, trim_text}
use lapor_kos.Forms.Settlement.{
  SettlementForm, ExecuteCheckoutRequest, CheckoutServer, handle_execute,
}

-- The key was returned or the override is ticked, and an override that is ticked has a reason.
abbrev pub is_justified : SettlementForm → Bool
is_justified f =
    (f.key_returned || f.room_override)
    && (not f.room_override || not (trim_text f.override_reason == ""))

-- What is to be sent.
abbrev pub execution : SettlementForm → CheckoutCall ExecuteCheckoutRequest
execution f = execute_checkout f.checkout_id (record {
  actual_checkout_date = f.actual_date;
  target_room_status = f.target_room_status;
  room_override = f.room_override;
  room_override_reason = trim_text f.override_reason;
})

abbrev pub is_returned : {A : Type 0} → Outcome A → Bool
is_returned (returned a) = true
is_returned (thrown m) = false

-- The server is asked to execute a checkout exactly where the key was returned or the override is
-- ticked, and a ticked override has a reason, also where the key was returned; what is sent is what is
-- filled in, with the reason trimmed, and the target status is not looked at. The dialog closes exactly
-- where the server has done so. Without, no call is made, and the dialog stays open with an error.
pub handle_execute_lem :
    {C : Type 0} (f : SettlementForm) (server : CheckoutServer C)
    (calls : List (CheckoutCall ExecuteCheckoutRequest)) (s : Submission)
    → s.done ≡ false
    → let (s', calls') = handle_execute f server calls s in
      (calls' ≡ (if is_justified f then execution f ∷ calls else calls))
      × (s'.done ≡ (is_justified f && is_returned (server calls (execution f))))
      × (is_none s'.error ≡ (is_justified f && is_returned (server calls (execution f))))
unfolding handle_execute
handle_execute_lem f server calls s opened = ground arith
