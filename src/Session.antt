-- ===== src/Session.antt =====
-- frontend/src/features/session: the signed-in user.
pub mod Types
pub mod Laws
use lapor_kos.Prelude.{String, Bool, true, false, Option, none, some, get_or}
use lapor_kos.Browser.{Browser}
use lapor_kos.Auth.{remove_token}
use Types.{SessionUser}

-- The `useState` cells of `SessionProvider`.
pub record Session : Type 0 where
  pub user : Option SessionUser
  pub is_loading : Bool
  pub error : Option String

abbrev pub initial : Session
initial = record { user = none; is_loading = true; error = none }

-- `reload`, up to the call of `/api/auth/me`.
unfoldable pub reload_start : Session → Session
reload_start s = record s { is_loading = true; error = none }

-- The call has answered.
unfoldable pub reload_done : SessionUser → Session → Session
reload_done user s = record s { user = some user; is_loading = false }

-- The call has thrown; a value that is no `Error` is reported by the fixed text.
unfoldable pub reload_failed : Option String → Session → Session
reload_failed message s = record s {
  user = none;
  error = some (get_or message "Gagal memuat sesi pengguna");
  is_loading = false;
}

unfoldable pub logout : Session → Browser → Session × Browser
logout s b = (record s { user = none }, remove_token b)
