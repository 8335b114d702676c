-- ===== src/SignIn/Recovery.antt =====
-- frontend/src/app/(auth): forgot-password/page.tsx, verify-otp/page.tsx and reset-password/page.tsx, the
-- three pages by which a password is set again. They hand the email and the code on by the session
-- storage. A page reads it when it is opened; a form is submitted with what passes its schema, of which
-- `is_email` is the library's check of an email.
pub mod Laws
use lapor_kos.Prelude.{
  String, ℕ, Bool, true, false, not, ◌&&◌, ◌||◌, Option, none, some, List, [], ◌∷◌, ◌==◌, eqb, ltb,
  truthy, if◌then◌else◌,
}
use lapor_kos.Api.Request.{Outcome, returned, thrown}
use lapor_kos.Api.Action.{Server, ask}
use lapor_kos.Browser.{Store, set_item, remove_item}
use lapor_kos.Forms.{message_or, text_length}

pub data AuthCall : Type 0 where
  forgot_password : (email : String) → AuthCall
  verify_otp : (email otp : String) → AuthCall
  reset_password : (email otp new_password : String) → AuthCall

pub data Answer : Type 0 where
  done : Answer

abbrev pub AuthServer : Type 0
AuthServer = Server AuthCall Answer

-- The tab: its session storage, the cells of the page that is shown, and where it was sent to.
pub record Tab : Type 0 where
  pub session : Store
  pub email : Option String
  pub otp : Option String
  pub error : Option String
  pub pushed : Option String

abbrev pub email_key : String
email_key = "reset_email"

abbrev pub otp_key : String
otp_key = "reset_otp"

-- The pages are opened: `useEffect`, and the cells of a new page.
unfoldable pub open_forgot : Tab → Tab
open_forgot t = record t { email = none; otp = none; error = none }

unfoldable pub open_verify : Tab → Tab
open_verify t =
    let stored = t.session email_key in
    if truthy stored
    then record t { email = stored; otp = none; error = none }
    else record t { email = none; otp = none; error = none; pushed = some "/forgot-password" }

unfoldable pub open_reset : Tab → Tab
open_reset t =
    let stored_email = t.session email_key in
    let stored_otp = t.session otp_key in
    if truthy stored_email && truthy stored_otp
    then record t { email = stored_email; otp = stored_otp; error = none }
    else record t { email = none; otp = none; error = none; pushed = some "/forgot-password" }

abbrev pub Submission : Type 0
Submission = AuthServer → List AuthCall → Tab → Tab × List AuthCall

abbrev pub forgotten : String → Outcome Answer → Tab → Tab
forgotten email (returned a) t = record t {
  session = set_item email_key email t.session;
  error = none;
  pushed = some "/verify-otp";
}
forgotten email (thrown m) t = record t {
  error = some (message_or m "Terjadi kesalahan. Silakan coba lagi.");
}

-- `onSubmit` of the first page.
unfoldable pub submit_forgot : (String → Bool) → String → Submission
submit_forgot is_email email server calls t =
    if not (is_email email)
    then (t, calls)
    else let (o, calls') = ask (forgot_password email) server calls in (forgotten email o t, calls')

abbrev pub verified : String → Outcome Answer → Tab → Tab
verified otp (returned a) t = record t {
  session = set_item otp_key otp t.session;
  error = none;
  pushed = some "/reset-password";
}
verified otp (thrown m) t = record t {
  error = some (message_or m "Kode OTP salah atau sudah kadaluarsa.");
}

-- `onSubmit` of the second page, which shows no form without an email.
abbrev pub submit_code : Option String → String → Submission
submit_code none otp server calls t = (t, calls)
submit_code (some email) otp server calls t =
    if not (eqb (text_length otp) 6)
    then (t, calls)
    else let (o, calls') = ask (verify_otp email otp) server calls in (verified otp o t, calls')

unfoldable pub submit_otp : String → Submission
submit_otp otp server calls t = submit_code t.email otp server calls t

pub record ResetPasswordForm : Type 0 where
  pub new_password : String
  pub confirm_password : String

abbrev pub reset_password_schema : ResetPasswordForm → Bool
reset_password_schema f =
    not (ltb (text_length f.new_password) 8)
    && (not (ltb (text_length f.confirm_password) 8) && f.new_password == f.confirm_password)

abbrev pub finished : Outcome Answer → Tab → Tab
finished (returned a) t = record t {
  session = remove_item otp_key (remove_item email_key t.session);
  error = none;
  pushed = some "/login?reset=success";
}
finished (thrown m) t = record t {
  error = some (message_or m "Terjadi kesalahan saat mengatur ulang password.");
}

-- `onSubmit` of the third page, which shows no form without an email and a code.
abbrev pub submit_new : Option String → Option String → ResetPasswordForm → Submission
submit_new (some email) (some otp) f server calls t =
    if not (reset_password_schema f)
    then (t, calls)
    else let (o, calls') = ask (reset_password email otp f.new_password) server calls in
      (finished o t, calls')
submit_new _ _ f server calls t = (t, calls)

unfoldable pub submit_reset : ResetPasswordForm → Submission
submit_reset f server calls t = submit_new t.email t.otp f server calls t
