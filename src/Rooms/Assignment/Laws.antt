-- ===== src/Rooms/Assignment/Laws.antt =====
-- Which tenants are put into a room, and that the room which is removed is the one that was clicked.
use lapor_kos.Prelude.{
  String, ℕ, zero, suc, ◌+◌, ◌≤◌, ◌≡◌, refl, ap, ◌∙◌, inl, inr, Bool, not, ◌&&◌, Option, none, some,
  List, [], ◌∷◌, ◌==◌, arith, ltb, leb, length, take, length-take-le, if◌then◌else◌, is_none,
  All-take, All-filter,
}
use lapor_kos.Invitations.Chars.{Chars, is_empty, trim, is_digit}
use lapor_kos.Invitations.Phone.{digits_of}
use lapor_kos.Invitations.Phone.Laws.{Digits, digits_of-groups}
use lapor_kos.Phones.{format_local, local_digits, layout}
use lapor_kos.Phones.Laws.{format_local-layout, local-Digits}
use lapor_kos.Api.Action.{Outcome-cases}
use lapor_kos.Forms.{is_blank}
use lapor_kos.Rooms.Assignment.{
  AssignPage, RoomServer, RoomCall, delete_room, assign_error, handle_delete_click, confirm_delete,
  handle_tenant_submit, assign_call, submit_checked,
}

-- The room that a confirmation removes is the one that was clicked, with its tenant only if that was
-- chosen, and it is asked for once.
pub confirm_delete-handle_delete_click :
    (id status : String) (delete_tenant : Bool) (server : RoomServer) (calls : List RoomCall)
    (s : AssignPage)
    → let clicked = handle_delete_click id status s in
      ((confirm_delete delete_tenant server calls clicked).1 ≡ delete_room id delete_tenant ∷ calls)
      × (clicked.delete_modal.has_tenant ≡ (status == "occupied"))
unfolding confirm_delete handle_delete_click
confirm_delete-handle_delete_click id status delete_tenant server calls s = (refl, refl)

length-layout :
    (d : Chars)
    → Digits d
    → length d ≤ 12
    → length (digits_of (layout 5 d)) ≡ (if is_empty d then 0 else 2 + length d)
length-layout [] h k = refl
length-layout (c ∷ d) h k = omega (arith, ap length (digits_of-groups 5 (c ∷ d) h k))

check-shown : (d : Chars) → ltb (if is_empty d then 0 else 2 + length d) 12 ≡ ltb (length d) 10
check-shown [] = refl
check-shown (c ∷ d) = ground arith

check-length : (n : ℕ) → ltb (if leb n 12 then n else 12) 10 ≡ ltb n 10
check-length n = ground arith

length-take : (n : ℕ) (d : Chars) → length (take n d) ≡ (if leb (length d) n then length d else n)
length-take zero [] = refl
length-take zero (c ∷ d) = ground arith
length-take (suc n) [] = ground arith
length-take (suc n) (c ∷ d) = ground (arith, length-take n d)

-- The field of the telephone number: a number passes the check exactly if ten digits were typed
-- besides the country code or the leading zero.
pub phone_check-format_local :
    (value : Chars)
    → ltb (length (digits_of (format_local 5 value))) 12
      ≡ ltb (length (local_digits (digits_of value))) 10
phone_check-format_local value =
    let typed = local_digits (digits_of value) in
    let shown = take 12 typed in
    let digits = All-take _ 12 typed (local-Digits (digits_of value) (All-filter is_digit value)) in
    ap (λ s. ltb (length (digits_of s)) 12) (format_local-layout 5 value)
    ∙ ap (λ n. ltb n 12) (length-layout shown digits (length-take-le 12 typed))
    ∙ check-shown shown
    ∙ ap (λ n. ltb n 10) (length-take 12 typed)
    ∙ check-length (length typed)

abbrev Sends : Option String → RoomServer → List RoomCall → AssignPage → Type 0
Sends error server calls s =
    let (s', calls') = submit_checked error server calls s in
    (calls' ≡ (if is_none error then assign_call s ∷ calls else calls))
    × (s'.tenant_form ≡ s.tenant_form)
    × (s'.files ≡ s.files)
    × (s'.is_submitting_tenant ≡ (not (is_none error) && s.is_submitting_tenant))

submit_checked-Sends :
    (error : Option String) (server : RoomServer) (calls : List RoomCall) (s : AssignPage)
    → Sends error server calls s
submit_checked-Sends (some m) server calls s = (refl, refl, refl, refl)
submit_checked-Sends none server calls s = elim (Outcome-cases (server calls (assign_call s))) [
  | inl (a, e) ↦ rw e (refl, refl, refl, refl)
  | inr (m, e) ↦ rw e (refl, refl, refl, refl)
]

-- A tenant is sent, once, exactly if no check fails; nothing that was filled in is lost, and the
-- dialog is not left submitting.
pub handle_tenant_submit_lem :
    (server : RoomServer) (calls : List RoomCall) (s : AssignPage)
    → let (s', calls') = handle_tenant_submit server calls s in
      let error = assign_error s in
      (calls' ≡ (if is_none error then assign_call s ∷ calls else calls))
      × (s'.tenant_form ≡ s.tenant_form)
      × (s'.files ≡ s.files)
      × (s'.is_submitting_tenant ≡ (not (is_none error) && s.is_submitting_tenant))
unfolding handle_tenant_submit
handle_tenant_submit_lem server calls s = submit_checked-Sends (assign_error s) server calls s

-- No check fails exactly with a name, a telephone number of twelve digits, a date, and both documents.
pub assign_error-none :
    (s : AssignPage)
    → let t = s.tenant_form in
      is_none (assign_error s) ≡ (
        not (is_blank t.name)
        && (not (is_empty (trim t.phone))
            && (leb 12 (length (digits_of t.phone))
                && (not (is_blank t.entry_date) && (s.files.ktp && s.files.selfie)))))
unfolding assign_error
assign_error-none s = ground arith
