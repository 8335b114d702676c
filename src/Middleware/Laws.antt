-- ===== src/Middleware/Laws.antt =====
-- Where the middleware sends a visitor.
use lapor_kos.Prelude.{
  String, ◌≡◌, refl, ◌≢◌, ◌↔◌, ◌⊎◌, inl, inr, true, false, Option, none, arith, eq_iff, is_under,
  truthy, Any, any_iff, any-is_under_of_apart,
}
use lapor_kos.Middleware.{protected_paths, redirect, next, is_protected, is_auth_path, middleware}
use lapor_kos.Navigation.{staff_only_paths, is_staff_only_path}

home_ne_login : ◌≢◌ {A = String} "/" "/login"
home_ne_login = ground (arith, eq_iff "/" "/login")

is_protected_iff :
    (pathname : String)
    → (is_protected pathname ≡ true) ↔ Any (λ path. is_under path pathname ≡ true) protected_paths
unfolding is_protected
is_protected_iff pathname = any_iff (λ path. is_under path pathname) protected_paths

login_open : is_protected "/login" ≡ false
unfolding is_protected
login_open = refl

home_no_auth : is_auth_path "/" ≡ false
unfolding is_auth_path
home_no_auth = refl

-- A visitor without a token is sent to the login page exactly from the protected paths and the
-- pages below them.
pub login_iff :
    (token : Option String) (pathname : String)
    → (middleware token pathname ≡ redirect "/login")
      ↔ ((truthy token ≡ false) × Any (λ path. is_under path pathname ≡ true) protected_paths)
unfolding middleware
login_iff token pathname =
    let listed = is_protected_iff pathname in
    (
      λ e. (ground (arith, e, home_ne_login), listed.0 (ground (arith, e, home_ne_login))),
      λ h. ground (arith, h.0, listed.1 h.1),
    )

-- A page that a visitor is sent to lets the visitor in: there is no loop of redirections.
pub redirect_settles :
    (token : Option String) (pathname target : String)
    → middleware token pathname ≡ redirect target
    → middleware token target ≡ next
unfolding middleware
redirect_settles token pathname target h = ground (arith, login_open, home_no_auth)

open_without_token :
    (pathname : String) → is_protected pathname ≡ false → middleware none pathname ≡ next
unfolding middleware
open_without_token pathname h = ground arith

-- Two sections of the dashboard are for the staff alone, and the middleware lets a visitor
-- without a token into both.
pub staff_unprotected :
    (path pathname : String)
    → (path ≡ "/expenses") ⊎ (path ≡ "/audit")
    → is_under path pathname ≡ true
    → (is_staff_only_path pathname ≡ true) × (middleware none pathname ≡ next)
unfolding is_staff_only_path is_protected
staff_unprotected path pathname (inl e) h =
    let below : is_under "/expenses" pathname ≡ true = rw e at h in
    (
      (any_iff (λ q. is_under q pathname) staff_only_paths).1 (inr (inr (inr (inl below)))),
      open_without_token pathname
          (any-is_under_of_apart "/expenses" protected_paths pathname refl below),
    )
staff_unprotected path pathname (inr e) h =
    let below : is_under "/audit" pathname ≡ true = rw e at h in
    (
      (any_iff (λ q. is_under q pathname) staff_only_paths).1 (inr (inr (inr (inr (inl below))))),
      open_without_token pathname
          (any-is_under_of_apart "/audit" protected_paths pathname refl below),
    )
