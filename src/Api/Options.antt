-- ===== src/Api/Options.antt =====
-- frontend/src/lib/api.ts: what a request is sent with. The base URL and the `URL` class of the
-- platform are parameters; header names are written in lower case, as `Headers` folds them.
pub mod Laws
use Prim.Native.Char.{code}
use lapor_kos.Prelude.{
  String, Bool, true, false, not, ◌&&◌, ◌||◌, List, [], ◌∷◌, Option, none, some, ◌==◌, ◌^^◌, eqb,
  starts_with, truthy, or_else, get_or, is_none, if◌then◌else◌,
}
use lapor_kos.Browser.{Browser}
use lapor_kos.Auth.{get_token}
use lapor_kos.Properties.Storage.{get_stored_active_property_id}

-- `Headers`, by its lower-case names.
abbrev pub Headers : Type 0
Headers = String → Option String

abbrev pub no_headers : Headers
no_headers name = none

abbrev pub set_header : String → String → Headers → Headers
set_header name value h k = if name == k then some value else h k

abbrev pub has_header : String → Headers → Bool
has_header name h = not (is_none (h name))

-- The body of a request: absent, a `FormData`, or any other.
pub data Body : Type 0 where
  no_body form_data : Body
  text : String → Body

pub record RequestOptions : Type 0 where
  pub method : Option String
  pub params : Option (List (String × String))
  pub property_scoped : Option Bool
  pub headers : Headers
  pub body : Body

unfoldable pub is_unscoped_endpoint : String → Bool
is_unscoped_endpoint endpoint =
    starts_with endpoint "/api/auth/"
    || endpoint == "/api/properties"
    || starts_with endpoint "/api/properties/"

-- `.replace(/\/$/, '')`
drop_last_slash : String → String
drop_last_slash String.[] = ""
drop_last_slash (String.◌∷◌ c String.[]) = if eqb (code c) b'/' then "" else String.◌∷◌ c ""
drop_last_slash (String.◌∷◌ c s) = String.◌∷◌ c (drop_last_slash s)

-- `new_url endpoint base params` is the text of `new URL(endpoint, base)` with the search
-- parameters set in turn.
unfoldable pub build_url :
    (String → String → List (String × String) → String)
    → String
    → String
    → Option (List (String × String))
    → String
unfolding drop_last_slash
build_url new_url api_url endpoint params =
    new_url endpoint (drop_last_slash api_url ^^ "/") (get_or params [])

abbrev with_token : Option String → Headers → Headers
with_token token h =
    if truthy token then set_header "authorization" ("Bearer " ^^ get_or token "") h else h

abbrev with_property : Option String → Headers → Headers
with_property property_id h =
    if truthy property_id && not (has_header "x-property-id" h)
    then set_header "x-property-id" (get_or property_id "") h
    else h

abbrev is_json_body : Body → Bool
is_json_body no_body = false
is_json_body form_data = false
is_json_body (text s) = true

abbrev with_content_type : Body → Headers → Headers
with_content_type body h =
    if is_json_body body && not (has_header "content-type" h)
    then set_header "content-type" "application/json" h
    else h

-- `shouldScope`
abbrev pub should_scope : String → RequestOptions → Bool
should_scope endpoint options = get_or options.property_scoped (not (is_unscoped_endpoint endpoint))

unfoldable pub build_headers : Browser → String → RequestOptions → Headers
build_headers b endpoint options =
    let property_id =
      if should_scope endpoint options then get_stored_active_property_id b else none in
    with_content_type options.body
      (with_property property_id (with_token (get_token b) options.headers))

-- `[…].join('|')`
unfoldable pub get_request_key :
    (String → String → List (String × String) → String)
    → String
    → Browser
    → String
    → RequestOptions
    → String
get_request_key new_url api_url b endpoint options =
    let h = build_headers b endpoint options in
    build_url new_url api_url endpoint options.params
    ^^ "|"
    ^^ get_or (h "authorization") ""
    ^^ "|"
    ^^ get_or (h "x-property-id") ""
    ^^ "|"
    ^^ get_or (h "accept") ""
