-- ===== src/SignIn.antt =====
-- frontend/src/app/(auth): login/page.tsx and register/page.tsx. A form is submitted with what passes its
-- schema, of which `is_email` is the library's check of an email; `is_accepted` is that the
-- terms were accepted.
pub mod Recovery
pub mod Laws
use lapor_kos.Prelude.{
  String, Bool, true, false, not, ◌&&◌, Option, none, some, ◌==◌, ltb, if◌then◌else◌,
}
use lapor_kos.Api.Request.{Outcome, returned, thrown, Response, Payload, read_api_response}
use lapor_kos.Auth.{set_token}
use lapor_kos.Browser.{Browser}
use lapor_kos.Forms.{message_or, text_length}

pub record LoginForm : Type 0 where
  pub email : String
  pub password : String
  pub remember : Bool

-- The page, with the paths that the router was given.
pub record LoginPage : Type 0 where
  pub error : Option String
  pub success : Option String
  pub is_loading : Bool
  pub pushed : Option String

unfoldable pub login_schema : (String → Bool) → LoginForm → Bool
login_schema is_email f = is_email f.email && not (ltb (text_length f.password) 6)

abbrev is_success : Option String → Bool
is_success none = false
is_success (some text) = text == "success"

-- The effect, with the parameters `reset` and `verified`: the later text stays.
unfoldable pub greeting : Option String → Option String → Option String → Option String
greeting reset verified success =
    if is_success verified
    then some "Email berhasil diverifikasi. Silakan masuk ke akun Anda."
    else if is_success reset
    then some "Password berhasil diatur ulang. Silakan masuk dengan password baru Anda."
    else success

-- `result.token` of what is answered, which throws where there is no object.
abbrev pub answered : (Payload → Outcome String) → Outcome Payload → Outcome String
answered token_of (returned payload) = token_of payload
answered token_of (thrown m) = thrown m

-- The `try` of `onSubmit`, once the call is over.
abbrev pub logged_in :
    (String → String) → LoginForm → Outcome String → LoginPage × Browser → LoginPage × Browser
logged_in encode f (returned token) (s, b) = (
  record s { error = none; success = none; pushed = some "/"; is_loading = false },
  set_token encode token f.remember b,
)
logged_in encode f (thrown m) (s, b) = (
  record s {
    error = some (message_or m "Email atau password salah. Silakan coba lagi.");
    success = none;
    is_loading = false;
  },
  b,
)

-- `onSubmit`, with the response to the email and the password: the call itself ends a session that is
-- refused.
unfoldable pub submit_login :
    (String → Bool)
    → (String → String)
    → (Payload → Outcome String)
    → (String → String → Response)
    → LoginForm
    → LoginPage × Browser
    → LoginPage × Browser
submit_login is_email encode token_of login f (s, b) =
    if not (login_schema is_email f)
    then (s, b)
    else let (e, o) = read_api_response b (login f.email f.password) in
      logged_in encode f (answered token_of o) (s, e.browser)

pub record RegisterForm : Type 0 where
  pub name : String
  pub property_name : String
  pub email : String
  pub password : String
  pub is_accepted : Bool

pub record RegisterRequest : Type 0 where
  pub name : String
  pub property_name : String
  pub email : String
  pub password : String

unfoldable pub register_schema : (String → Bool) → RegisterForm → Bool
register_schema is_email f =
    not (ltb (text_length f.name) 3)
    && (not (ltb (text_length f.property_name) 3)
        && (is_email f.email && (not (ltb (text_length f.password) 8) && f.is_accepted)))

-- What is sent, if anything is.
unfoldable pub register_request : (String → Bool) → RegisterForm → Option RegisterRequest
register_request is_email f =
    if register_schema is_email f
    then some (record {
      name = f.name;
      property_name = f.property_name;
      email = f.email;
      password = f.password;
    })
    else none

-- The error and whether the dialog that asks for the email is shown, after the answer.
unfoldable pub registered : {J : Type 0} → Outcome J → Option String × Bool
registered (returned a) = (none, true)
registered (thrown m) = (some m, false)
