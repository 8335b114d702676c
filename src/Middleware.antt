-- ===== src/Middleware.antt =====
-- frontend/src/middleware.ts: which pages a visitor without a token is sent away from. The token
-- is the value of the cookie `auth_token`; `config.matcher`, by which the framework chooses the
-- requests that come here, is not modelled.
pub mod Laws
use mathlib.Core.Option
use lapor_kos.Browser.{Browser}
use lapor_kos.Auth.{token_key}
use lapor_kos.Prelude.{
  String, Bool, not, ◌&&◌, List, [], ◌∷◌, Option, ◌==◌, any, is_under, truthy, if◌then◌else◌,
}

abbrev pub protected_paths : List String
protected_paths =
    "/" ∷ "/rooms" ∷ "/tenants" ∷ "/invoices" ∷ "/payments" ∷ "/calendar" ∷ "/complaints"
    ∷ "/reports" ∷ "/rules" ∷ "/settings" ∷ "/properties" ∷ []

abbrev pub auth_paths : List String
auth_paths = "/login" ∷ "/register" ∷ []

pub data NextResponse : Type 0 where
  redirect : String → NextResponse
  next : NextResponse

-- `request.cookies.get(TOKEN_KEY)?.value`, which the platform decodes.
unfoldable pub cookie_token : (String → String) → Browser → Option String
cookie_token decode b = Option.map (λ c. decode c.value) (b.cookies token_key)

unfoldable pub is_protected : String → Bool
is_protected pathname = any (λ path. is_under path pathname) protected_paths

unfoldable pub is_auth_path : String → Bool
is_auth_path pathname = any (λ path. pathname == path) auth_paths

unfoldable pub middleware : Option String → String → NextResponse
middleware token pathname =
    if is_protected pathname && not (truthy token)
    then redirect "/login"
    else if is_auth_path pathname && truthy token
    then redirect "/"
    else next
