-- ===== src/Examples/Desk.antt =====
-- Complaints, invoices, the facilities of a room, and the activation of an invitation.
use lapor_kos.Prelude.{
  ℕ, ◌≡◌, refl, Bool, true, false, ◌&&◌, ◌||◌, none, some, List, [], ◌∷◌, All, ◌==◌, ℤ, pos, negsuc,
}
use lapor_kos.Api.Request.{returned}
use lapor_kos.Api.Action.{Server}
use lapor_kos.Calls.Invoices.{preview_adjustment, create_adjustment}
use lapor_kos.Invitations.Chars.{Chars, chars, trim, is_space}
use lapor_kos.Invitations.Email.{matches_email, is_plain}
use lapor_kos.Invitations.Activation.{Activation, ActivationRequest, new, submit, errors_of}
use lapor_kos.Invitations.Activation.Laws.{IsAgreed, submit-IsAgreed}
use lapor_kos.Forms.{trim_text}
use lapor_kos.Complaints.{Complaint, Filters, is_shown}
use lapor_kos.Complaints.Laws.{is_chosen, is_shown-chosen}
use lapor_kos.Rooms.Dialog.{facilities_of, description_of, handle_add_facility}
use lapor_kos.Rooms.Dialog.Laws.{IsTag, facilities_of-description_of}
use lapor_kos.Invoices.{
  AdjustmentPayload, adjustment, InvoicesPage, InvoiceServer, empty_meter, edit_adjustment,
  can_submit, handle_preview_adjustment, handle_submit_adjustment,
}
use lapor_kos.Invoices.Laws.{Sent, adjustment_unpreviewed}

-- A low one, that is processed.
abbrev lamp : Complaint
lamp = record { id = "k-1"; status = "processed"; priority = "low"; sla_status = "on_track" }

abbrev urgent : Filters
urgent = record { status_filter = "in_progress"; priority_filter = "urgent"; sla_filter = "all" }

shown_test : is_shown urgent lamp ≡ true
unfolding is_shown
shown_test = refl

is_shown-chosen_example : is_shown urgent lamp ≡ (
    (is_chosen "in_progress" "processed"
      && (is_chosen "urgent" "low" && is_chosen "all" "on_track"))
    || ("in_progress" == "in_progress" && "processed" == "processed"))
is_shown-chosen_example = is_shown-chosen urgent lamp

abbrev discount : ℤ → AdjustmentPayload
discount amount = record { description = "Diskon"; amount_minor = amount; reason = "AC rusak" }

abbrev page : InvoicesPage ℕ
page = record {
  selected = some "i-1";
  adjustment_form = discount (negsuc 49999);
  preview = none;
  shows_adjustment = true;
  meter_form = empty_meter "2025-01";
  shows_meter = false;
  error = none;
  notice = none;
}

abbrev accepting : InvoiceServer ℕ
accepting calls c = returned 1

adjustment_unpreviewed_example :
    let (previewed, calls') = handle_preview_adjustment accepting [] page in
    let edited = edit_adjustment (discount (pos 0)) previewed in
    let (_, calls'') = handle_submit_adjustment false accepting calls' edited in
    (edited.preview ≡ some 1)
    × (can_submit edited ≡ true)
    × Sent
        (create_adjustment "i-1" (adjustment (discount (pos 0))))
        (preview_adjustment "i-1" (adjustment (discount (negsuc 49999))) ∷ [])
        calls''
unfolding trim_text is_space
adjustment_unpreviewed_example =
    adjustment_unpreviewed false accepting [] page "i-1" 1 (discount (pos 0)) refl refl refl

abbrev tags : List Chars
tags = chars "AC" ∷ chars "Kamar mandi" ∷ []

tags-IsTag : All IsTag tags
unfolding trim is_space
tags-IsTag = ((refl, refl, refl), ((refl, refl, refl), tt))

description_test : description_of tags ≡ chars "AC, Kamar mandi"
unfolding description_of
description_test = refl

add_test : handle_add_facility (chars " AC ") tags ≡ tags
unfolding handle_add_facility trim is_space
add_test = refl

facilities_of-description_of_example : facilities_of (description_of tags) ≡ tags
facilities_of-description_of_example = facilities_of-description_of tags tags-IsTag

abbrev joining : Activation
joining = record {
  token = "u-1";
  email_required = some true;
  email = chars "ani@kos.id";
  account_type = new;
  password = chars "rahasia123";
  existing_password = [];
  agree = true;
  form_errors = record { email = none; password = none; existing_password = none; agree = none };
  request_error = none;
  awaiting_verification = false;
  is_activated = false;
}

abbrev activating : Server ActivationRequest Bool
activating calls r = returned true

sent_test : (submit activating [] joining).0.awaiting_verification ≡ true
unfolding submit errors_of matches_email is_plain trim is_space
sent_test = refl

submit-IsAgreed_example : All IsAgreed (submit activating [] joining).1
submit-IsAgreed_example = submit-IsAgreed activating [] joining tt
