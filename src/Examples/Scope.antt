-- ===== src/Examples/Scope.antt =====
-- The session's token and the active property: frontend/src/lib/auth.ts and
-- frontend/src/features/properties.
use lapor_kos.Prelude.{String, ◌≡◌, refl, true, false, List, [], ◌∷◌, none, some, ◌==◌}
use lapor_kos.Authorization.{finance}
use lapor_kos.Browser.{Browser}
use lapor_kos.Properties.Types.{PropertySummary}
use lapor_kos.Properties.Storage.{
  active_property_key, get_stored_active_property_id, set_stored_active_property_id,
}
use lapor_kos.Properties.Provider.{World, initial, refresh_start, refresh_loaded}
use lapor_kos.Properties.Provider.Laws.{
  IsConsistent, Reach, mounted, next, started, loaded, Reach-IsConsistent,
}
use lapor_kos.Auth.{token_key, is_authenticated}
use lapor_kos.Middleware.{cookie_token, redirect, is_protected, middleware}
use lapor_kos.Session.{Session, logout}
use lapor_kos.Session.Laws.{logout_closes}

-- A browser that remembers a session and the property `kos-2`.
abbrev remembered : Browser
remembered = record {
  has_window = true;
  local_storage = λ k. elim (k == token_key) [
    | true ↦ some "old"
    | false ↦ elim (k == active_property_key) [ true ↦ some "kos-2" | false ↦ none ]
  ];
  session_storage = λ k. none;
  cookies = λ k. none;
  is_https = true;
  pathname = "/";
}

abbrev encode : String → String
encode s = s

rooms_protected : is_protected "/rooms" ≡ true
unfolding is_protected
rooms_protected = refl

abbrev somebody : Session
somebody = record { user = none; is_loading = false; error = some "Sesi berakhir" }

logout_closes_example :
    let (t, c) = logout somebody remembered in
    (t.user ≡ none)
    × (is_authenticated c ≡ false)
    × (middleware (cookie_token encode c) "/rooms" ≡ redirect "/login")
logout_closes_example = logout_closes encode somebody remembered "/rooms" refl rooms_protected

abbrev kos : String → PropertySummary
kos id = record {
  id = id;
  name = "Kos";
  address = none;
  timezone = "Asia/Jakarta";
  currency = "IDR";
  status = "active";
  membership_id = "m";
  role = finance;
  permissions = none;
}

abbrev two : List PropertySummary
two = kos "kos-1" ∷ kos "kos-2" ∷ []

abbrev fresh : World
fresh = record { provider = initial; browser = remembered }

abbrev listed : World
listed = refresh_loaded two (refresh_start fresh)

listed-Reach : Reach remembered listed
listed-Reach = next (next mounted (started fresh)) (loaded two (refresh_start fresh))

listed_active : listed.provider.active_property_id ≡ some "kos-2"
unfolding refresh_loaded refresh_start get_stored_active_property_id
listed_active = refl

Reach-IsConsistent_example : IsConsistent listed
Reach-IsConsistent_example = Reach-IsConsistent remembered listed refl listed-Reach

listed_window : listed.browser.has_window ≡ true
unfolding refresh_loaded refresh_start get_stored_active_property_id set_stored_active_property_id
listed_window = refl
