-- ===== src/Session/Laws.antt =====
-- The session and the middleware: a login opens the protected pages, a logout closes them.
use lapor_kos.Prelude.{String, ◌≡◌, ◌≢◌, Bool, true, false, if◌then◌else◌, none, arith, eq_iff}
use lapor_kos.Browser.{Browser}
use lapor_kos.Auth.{set_token, is_authenticated}
use lapor_kos.Auth.Laws.{remove_token_clears}
use lapor_kos.Middleware.{cookie_token, redirect, next, is_protected, is_auth_path, middleware}
use lapor_kos.Session.{Session, logout}

-- In the browser, after a logout the session has no user, nobody is authenticated, and the
-- middleware sends every protected page to the login page.
pub logout_closes :
    (decode : String → String) (s : Session) (b : Browser) (pathname : String)
    → b.has_window ≡ true
    → is_protected pathname ≡ true
    → let (t, c) = logout s b in
      (t.user ≡ none)
      × (is_authenticated c ≡ false)
      × (middleware (cookie_token decode c) pathname ≡ redirect "/login")
unfolding logout middleware cookie_token
logout_closes decode s b pathname w h = ground (arith, remove_token_clears b w)

-- In the browser, after a login with a token that is not empty and survives the encoding of the
-- cookie, the middleware lets every page through but the login and registration pages, from
-- where it goes to the dashboard.
pub login_opens :
    (encode decode : String → String) (token : String) (remember : Bool) (b : Browser)
    (pathname : String)
    → b.has_window ≡ true
    → token ≢ ""
    → decode (encode token) ≡ token
    → middleware (cookie_token decode (set_token encode token remember b)) pathname
      ≡ (if is_auth_path pathname then redirect "/" else next)
unfolding set_token middleware cookie_token
login_opens encode decode token true b pathname w t d = ground (arith, eq_iff token "")
login_opens encode decode token false b pathname w t d = ground (arith, eq_iff token "")
