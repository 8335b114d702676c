-- ===== src/Invitations/Activation.antt =====
-- frontend/src/app/(auth)/activate-invitation/page.tsx: the page where a tenant accepts an
-- invitation. The loading of the invitation and the polling after the activation are left out.
pub mod Laws
use lapor_kos.Prelude.{
  String, Bool, true, false, not, ◌&&◌, Option, none, some, List, length, ltb, is_none,
  if◌then◌else◌,
}
use lapor_kos.Api.Request.{Outcome, returned, thrown}
use lapor_kos.Api.Action.{Server, ask}
use lapor_kos.Invitations.Chars.{Chars, is_empty, trim}
use lapor_kos.Invitations.Email.{matches_email}

pub data AccountType : Type 0 where
  new existing : AccountType

-- A field with no error is not set.
pub record ActivationErrors : Type 0 where
  pub email : Option String
  pub password : Option String
  pub existing_password : Option String
  pub agree : Option String

-- The cells of the page; of the invitation whether it asks for an email, if it is loaded.
pub record Activation : Type 0 where
  pub token : String
  pub email_required : Option Bool
  pub email : Chars
  pub account_type : AccountType
  pub password : Chars
  pub existing_password : Chars
  pub agree : Bool
  pub form_errors : ActivationErrors
  pub request_error : Option String
  pub awaiting_verification : Bool
  pub is_activated : Bool

-- `clearFieldError`, for the two fields of a password.
abbrev clear_password : AccountType → ActivationErrors → ActivationErrors
clear_password new e = record e { existing_password = none }
clear_password existing e = record e { password = none }

unfoldable pub select_account_type : AccountType → Activation → Activation
select_account_type next s = record s {
  account_type = next;
  request_error = none;
  form_errors = clear_password next s.form_errors;
}

-- `preview?.email_required`
abbrev asks_email : Option Bool → Bool
asks_email none = false
asks_email (some b) = b

abbrev pub email_error : Activation → Option String
email_error s =
    if not (asks_email s.email_required)
    then none
    else if is_empty (trim s.email)
    then some "Email diperlukan untuk membuat akun."
    else if not (matches_email s.email)
    then some "Format email tidak valid."
    else none

abbrev pub password_error : AccountType → Chars → Option String
password_error existing password = none
password_error new password =
    if is_empty password
    then some "Kata sandi wajib diisi."
    else if ltb (length password) 8
    then some "Kata sandi minimal terdiri dari 8 karakter."
    else none

abbrev pub existing_error : AccountType → Chars → Option String
existing_error new password = none
existing_error existing password =
    if is_empty password then some "Masukkan kata sandi akun yang sudah ada." else none

unfoldable pub errors_of : Activation → ActivationErrors
errors_of s = record {
  email = email_error s;
  password = password_error s.account_type s.password;
  existing_password = existing_error s.account_type s.existing_password;
  agree = if not s.agree then some "Anda perlu menyetujui kebijakan untuk melanjutkan." else none;
}

-- `Object.keys(errors).length === 0`
abbrev pub has_no_error : ActivationErrors → Bool
has_no_error e =
    is_none e.email && is_none e.password && is_none e.existing_password && is_none e.agree

-- The body of the call; one of the passwords is in it.
pub data SentPassword : Type 0 where
  password existing_password : Chars → SentPassword

pub record ActivationRequest : Type 0 where
  pub token : String
  pub email : Chars
  pub secret : SentPassword
  pub policy_accepted : Bool

abbrev pub secret_of : Activation → AccountType → SentPassword
secret_of s new = password s.password
secret_of s existing = existing_password s.existing_password

abbrev pub activation_request : Activation → ActivationRequest
activation_request s = record {
  token = s.token;
  email = trim s.email;
  secret = secret_of s s.account_type;
  policy_accepted = s.agree;
}

-- The answer tells whether the email has to be verified.
abbrev activated : Outcome Bool → Activation → Activation
activated (returned verification) s = record s {
  awaiting_verification = verification;
  is_activated = true;
  request_error = none;
}
activated (thrown message) s = record s { request_error = some message }

-- `submit`, with the calls before and after.
unfoldable pub submit :
    Server ActivationRequest Bool
    → List ActivationRequest
    → Activation
    → Activation × List ActivationRequest
unfolding errors_of
submit server calls s =
    let checked = record s { form_errors = errors_of s } in
    if not (has_no_error (errors_of s))
    then (checked, calls)
    else let (o, calls') = ask (activation_request s) server calls in (activated o checked, calls')
