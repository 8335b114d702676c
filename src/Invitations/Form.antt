-- ===== src/Invitations/Form.antt =====
-- frontend/src/features/tenant-invitations/form.ts: `validateInvitationForm`.
pub mod Laws
use lapor_kos.Prelude.{String, Bool, not, ◌||◌, Option, none, some, length, ltb, if◌then◌else◌}
use lapor_kos.Invitations.Chars.{Chars, is_empty, is_prefix, trim}
use lapor_kos.Invitations.Phone.{digits_of, six_two}
use lapor_kos.Invitations.Email.{matches_email}

pub record InvitationFormValues : Type 0 where
  pub full_name : Chars
  pub email : Chars
  pub phone : Chars

-- A field with no error is not set.
pub record InvitationFormErrors : Type 0 where
  pub full_name : Option String
  pub email : Option String
  pub phone : Option String

unfoldable pub name_error : Chars → Option String
name_error full_name = if is_empty (trim full_name) then some "Nama lengkap wajib diisi." else none

unfoldable pub email_error : Chars → Option String
email_error email =
    if is_empty (trim email)
    then some "Email wajib diisi."
    else if not (matches_email (trim email))
    then some "Format email tidak valid."
    else none

unfoldable pub phone_error : Chars → Option String
phone_error phone =
    let digits = digits_of phone in
    if is_empty (trim phone)
    then some "Nomor WhatsApp wajib diisi."
    else if not (is_prefix six_two digits) || ltb (length digits) 11 || ltb 14 (length digits)
    then some "Gunakan nomor Indonesia yang valid, misalnya +62 812-3456-7890."
    else none

unfoldable pub validate_invitation_form : InvitationFormValues → InvitationFormErrors
validate_invitation_form values = record {
  full_name = name_error values.full_name;
  email = email_error values.email;
  phone = phone_error values.phone;
}
