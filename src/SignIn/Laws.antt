-- ===== src/SignIn/Laws.antt =====
-- What a login does to the browser, which opens the pages.
use lapor_kos.Prelude.{
  String, ◌≡◌, ◌≢◌, refl, Bool, true, false, none, some, Option, inl, eq_iff, truthy, not, ◌&&◌,
  Bool, false, if◌then◌else◌, arith, is_none,
}
use lapor_kos.Api.Request.{
  Outcome, returned, Response, Payload, is_ok, read_payload, read_api_response,
}
use lapor_kos.Api.Request.Laws.{session_end}
use lapor_kos.Auth.{token_key, set_token, get_token, is_authenticated}
use lapor_kos.Browser.{Browser}
use lapor_kos.Middleware.{cookie_token, middleware, next, is_auth_path}
use lapor_kos.Session.Laws.{login_opens}
use lapor_kos.SignIn.{LoginForm, LoginPage, login_schema, submit_login, answered}

-- The token that is read back after a login: an older one that was remembered goes before a new one that
-- is not to be.
abbrev pub token_after : Bool → Option String → String → Option String
token_after remember old token = if not remember && truthy old then old else some token

get_token-after :
    (encode : String → String) (token : String) (remember : Bool) (b : Browser)
    → b.has_window ≡ true
    → token ≢ ""
    → get_token (set_token encode token remember b)
      ≡ token_after remember (b.local_storage token_key) token
unfolding get_token set_token
get_token-after encode token true b w t = ground (arith, eq_iff token "")
get_token-after encode token false b w t = ground (arith, eq_iff token "")

is_authenticated-after :
    (encode : String → String) (token : String) (remember : Bool) (b : Browser)
    → b.has_window ≡ true
    → token ≢ ""
    → is_authenticated (set_token encode token remember b) ≡ true
unfolding is_authenticated
is_authenticated-after encode token remember b w t =
    rw (get_token-after encode token remember b w t) (ground (arith, eq_iff token ""))

-- A login is answered, with a status from 200 to 299, by a token that is not empty and survives the
-- encoding of the cookie. Then the page goes to the dashboard; the token is read back, unless it is not
-- to be remembered and an older one was, which is read back in its place; and the middleware lets
-- the dashboard through, and every other page that is not one of the login or the registration.
pub submit_login-middleware :
    (is_email : String → Bool) (encode decode : String → String)
    (token_of : Payload → Outcome String) (login : String → String → Response) (f : LoginForm)
    (s : LoginPage) (b : Browser) (token pathname : String)
    → login_schema is_email f ≡ true
    → is_ok (login f.email f.password) ≡ true
    → answered token_of (read_payload (login f.email f.password)) ≡ returned token
    → token ≢ ""
    → decode (encode token) ≡ token
    → b.has_window ≡ true
    → is_auth_path pathname ≡ false
    → let (s', b') = submit_login is_email encode token_of login f (s, b) in
      (s'.pushed ≡ some "/")
      × (s'.error ≡ none)
      × (get_token b' ≡ token_after f.remember (b.local_storage token_key) token)
      × (is_authenticated b' ≡ true)
      × (middleware (cookie_token decode b') "/" ≡ next)
      × (middleware (cookie_token decode b') pathname ≡ next)
unfolding submit_login is_auth_path read_api_response
submit_login-middleware is_email encode decode token_of login f s b token pathname fine ok answer
      full coded w page =
    rw (fine, ok)
      (rw answer (
        refl,
        refl,
        get_token-after encode token f.remember b w full,
        is_authenticated-after encode token f.remember b w full,
        login_opens encode decode token f.remember b "/" w full coded,
        rw page at (login_opens encode decode token f.remember b pathname w full coded),
      ))

-- A login that is refused with 401 leaves nobody signed in, and says why.
pub submit_login-refused :
    (is_email : String → Bool) (encode : String → String) (token_of : Payload → Outcome String)
    (login : String → String → Response) (f : LoginForm) (s : LoginPage) (b : Browser)
    → login_schema is_email f ≡ true
    → (login f.email f.password).status ≡ 401
    → b.has_window ≡ true
    → let (s', b') = submit_login is_email encode token_of login f (s, b) in
      (is_authenticated b' ≡ false) × (s'.pushed ≡ s.pushed) × (is_none s'.error ≡ false)
unfolding submit_login
submit_login-refused is_email encode token_of login f s b fine status w =
    let (thrown_error, left, _) = session_end b (login f.email f.password) (inl status) w in
    rw fine (simp thrown_error (left, refl, refl))
