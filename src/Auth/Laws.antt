-- ===== src/Auth/Laws.antt =====
-- What is read back after a login and after a logout.
use lapor_kos.Prelude.{String, ◌≡◌, ◌≢◌, ◌⊎◌, Bool, true, false, none, some, arith, eq_iff, truthy}
use mathlib.Core.Option
use lapor_kos.Browser.{Browser, Cookie}
use lapor_kos.Properties.Storage.{active_property_key, get_stored_active_property_id}
use lapor_kos.Auth.{token_key, set_token, get_token, remove_token, is_authenticated}

-- In the browser, after a login with a token that is not empty, the token is read back, if it was
-- to be remembered or the local storage held none; and no property is active.
pub get_token-set_token :
    (encode : String → String) (token : String) (remember : Bool) (b : Browser)
    → b.has_window ≡ true
    → token ≢ ""
    → (remember ≡ true) ⊎ (truthy (b.local_storage token_key) ≡ false)
    → (get_token (set_token encode token remember b) ≡ some token)
      × (get_stored_active_property_id (set_token encode token remember b) ≡ none)
unfolding get_token set_token get_stored_active_property_id
get_token-set_token encode token true b w t h = ground (arith, eq_iff token "")
get_token-set_token encode token false b w t h = ground (arith, eq_iff token "")

-- In the browser, a login that is not to be remembered over a remembered session reads back the
-- old token, while the cookie holds the new one.
pub stale_token :
    (encode : String → String) (token old : String) (b : Browser)
    → b.has_window ≡ true
    → old ≢ ""
    → b.local_storage token_key ≡ some old
    → (get_token (set_token encode token false b) ≡ some old)
      × (Option.map Cookie.value ((set_token encode token false b).cookies token_key)
          ≡ some (encode token))
unfolding get_token set_token
stale_token encode token old b w o h = ground (arith, eq_iff old "")

-- In the browser, after a logout nobody is authenticated, no property is active and the cookie is
-- gone, whatever was stored.
pub remove_token_clears :
    (b : Browser)
    → b.has_window ≡ true
    → (is_authenticated (remove_token b) ≡ false)
      × (get_stored_active_property_id (remove_token b) ≡ none)
      × ((remove_token b).cookies token_key ≡ none)
unfolding is_authenticated remove_token get_stored_active_property_id
remove_token_clears b w = ground arith

-- A logout touches no other key of the storages and no other cookie.
remove_token_frame :
    (b : Browser) (key : String)
    → key ≢ token_key
    → key ≢ active_property_key
    → ((remove_token b).local_storage key ≡ b.local_storage key)
      × ((remove_token b).session_storage key ≡ b.session_storage key)
      × ((remove_token b).cookies key ≡ b.cookies key)
unfolding remove_token
remove_token_frame b key t a = ground (arith, eq_iff token_key key, eq_iff active_property_key key)
