-- ===== src/Auth.antt =====
-- frontend/src/lib/auth.ts: the session token in the storages and in the cookie.
pub mod Laws
use lapor_kos.Prelude.{
  String, ℕ, ◌*◌, Bool, true, false, Option, none, some, ◌==◌, truthy, or_else, if◌then◌else◌,
}
use lapor_kos.Browser.{Browser, Cookie, set_item, remove_item}
use lapor_kos.Properties.Storage.{clear_stored_active_property_id}

abbrev pub token_key : String
token_key = "auth_token"

abbrev set_cookie : String → Cookie → (String → Option Cookie) → String → Option Cookie
set_cookie key cookie jar k = if key == k then some cookie else jar k

-- A cookie that expires in 1970 is removed at once.
abbrev expire_cookie : String → (String → Option Cookie) → String → Option Cookie
expire_cookie key jar k = if key == k then none else jar k

abbrev day : ℕ
day = 86400

-- `localStorage.setItem` or `sessionStorage.setItem`, whichever the choice asks for.
abbrev keep_token : String → Bool → Browser → Browser
keep_token token true b = record b { local_storage = set_item token_key token b.local_storage }
keep_token token false b = record b { session_storage = set_item token_key token b.session_storage }

abbrev token_cookie : String → Bool → Bool → Cookie
token_cookie value remember is_https = record {
  value = value;
  max_age = if remember then day * 30 else day;
  secure = is_https;
}

-- `encode` is `encodeURIComponent`.
unfoldable pub set_token : (String → String) → String → Bool → Browser → Browser
unfolding clear_stored_active_property_id
set_token encode token remember b =
    let kept = keep_token token remember (clear_stored_active_property_id b) in
    let cookie = token_cookie (encode token) remember b.is_https in
    if b.has_window then record kept { cookies = set_cookie token_key cookie kept.cookies } else b

unfoldable pub get_token : Browser → Option String
get_token b =
    if b.has_window then or_else (b.local_storage token_key) (b.session_storage token_key) else none

unfoldable pub remove_token : Browser → Browser
unfolding clear_stored_active_property_id
remove_token b =
    let without = record b {
      local_storage = remove_item token_key b.local_storage;
      session_storage = remove_item token_key b.session_storage;
    } in
    let scopeless = clear_stored_active_property_id without in
    if b.has_window
    then record scopeless { cookies = expire_cookie token_key scopeless.cookies }
    else b

unfoldable pub is_authenticated : Browser → Bool
unfolding get_token
is_authenticated b = truthy (get_token b)
