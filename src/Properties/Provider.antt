-- ===== src/Properties/Provider.antt =====
-- frontend/src/features/properties/PropertyProvider.tsx: the state of the provider and its
-- operations. `listProperties` is the server's answer and is an argument; a refresh of a user
-- starts, and ends at another moment by an answer or by an error.
pub mod Laws
use lapor_kos.Prelude.{
  String, ℕ, ◌+◌, Bool, true, false, not, ◌&&◌, List, [], ◌∷◌, Option, none, some, ◌==◌, any, find,
  get_elem?, get_or, truthy, if◌then◌else◌,
}
use lapor_kos.Browser.{Browser}
use lapor_kos.Properties.Types.{PropertySummary}
use lapor_kos.Properties.Storage.{
  get_stored_active_property_id, set_stored_active_property_id, clear_stored_active_property_id,
}

-- The `useState` cells.
pub record Provider : Type 0 where
  pub properties : List PropertySummary
  pub active_property_id : Option String
  pub is_loading : Bool
  pub error : Option String
  pub scope_version : ℕ

-- The provider with the browser, whose storage it writes.
pub record World : Type 0 where
  pub provider : Provider
  pub browser : Browser

abbrev pub initial : Provider
initial = record {
  properties = [];
  active_property_id = none;
  is_loading = true;
  error = none;
  scope_version = 0;
}

-- `properties.some((property) => property.id === id)`
abbrev pub is_member : String → List PropertySummary → Bool
is_member id properties = any (λ p. p.id == id) properties

-- A candidate of `[current, stored].find(…)`.
abbrev is_candidate : List PropertySummary → Option String → Bool
is_candidate properties none = false
is_candidate properties (some id) = not (id == "") && is_member id properties

abbrev first_id : List PropertySummary → Option String
first_id [] = none
first_id (p ∷ _) = some p.id

unfoldable pub next_id : List PropertySummary → Option String → Option String → Option String
next_id properties current stored =
    if is_candidate properties current
    then current
    else if is_candidate properties stored
    then stored
    else first_id properties

-- `refreshProperties` without a user.
unfoldable pub refresh_signed_out : World → World
refresh_signed_out w = record {
  provider = record w.provider { properties = []; active_property_id = none; is_loading = false };
  browser = clear_stored_active_property_id w.browser;
}

-- `refreshProperties` with a user, up to the call of the server.
unfoldable pub refresh_start : World → World
refresh_start w = record w { provider = record w.provider { is_loading = true; error = none } }

abbrev store_id : Option String → Browser → Browser
store_id id b =
    if truthy id
    then set_stored_active_property_id (get_or id "") b
    else clear_stored_active_property_id b

-- The server has answered with the list.
unfoldable pub refresh_loaded : List PropertySummary → World → World
unfolding next_id
refresh_loaded properties w =
    let id =
      next_id properties w.provider.active_property_id (get_stored_active_property_id w.browser) in
    record {
      provider = record w.provider {
        properties = properties;
        active_property_id = id;
        is_loading = false;
      };
      browser = store_id id w.browser;
    }

-- The call has thrown; a value that is no `Error` is reported by the fixed text.
unfoldable pub refresh_failed : Option String → World → World
refresh_failed message w = record w {
  provider = record w.provider {
    error = some (get_or message "Gagal memuat daftar properti");
    is_loading = false;
  };
}

-- `switchProperty`, with the path that `router.replace` is sent to.
unfoldable pub switch_property : String → Bool → String → World → World × Option String
switch_property property_id navigate_to_dashboard pathname w =
    if not (is_member property_id w.provider.properties) then (w, none) else (
      record {
        provider = record w.provider {
          active_property_id = some property_id;
          scope_version = w.provider.scope_version + 1;
        };
        browser = set_stored_active_property_id property_id w.browser;
      },
      if navigate_to_dashboard && not (pathname == "/") then some "/" else none,
    )

-- `activeProperty`
unfoldable pub active_property : Provider → Option PropertySummary
active_property p = elim p.active_property_id [
  | none ↦ none
  | some id ↦ find (λ q. q.id == id) p.properties
]
