-- ===== src/Api/Options/Laws.antt =====
-- What the headers of a request carry.
use lapor_kos.Prelude.{String, ◌≡◌, ◌≢◌, true, false, some, arith, eq_iff, ◌^^◌, get_or}
use lapor_kos.Browser.{Browser}
use lapor_kos.Auth.{get_token}
use lapor_kos.Properties.Storage.{get_stored_active_property_id}
use lapor_kos.Api.Options.{RequestOptions, should_scope, build_headers}

-- A request that is not scoped to a property carries the property header only if the caller
-- gave it one.
unscoped_header :
    (b : Browser) (endpoint : String) (options : RequestOptions)
    → should_scope endpoint options ≡ false
    → build_headers b endpoint options "x-property-id" ≡ options.headers "x-property-id"
unfolding build_headers
unscoped_header b endpoint options h = ground arith

-- A scoped request whose caller gave no property header carries the active property, if one is
-- stored; a header that the caller gave is kept.
pub scoped_header :
    (b : Browser) (endpoint : String) (options : RequestOptions) (id : String)
    → should_scope endpoint options ≡ true
    → get_stored_active_property_id b ≡ some id
    → id ≢ ""
    → build_headers b endpoint options "x-property-id"
      ≡ some (get_or (options.headers "x-property-id") id)
unfolding build_headers
scoped_header b endpoint options id h stored full = ground (arith, eq_iff id "")

-- The token of the session, when there is one, is what the request is authorised by, whatever the
-- caller gave, and the property that it is scoped to makes no difference to that.
authorization_header :
    (b : Browser) (endpoint : String) (options : RequestOptions) (token : String)
    → get_token b ≡ some token
    → token ≢ ""
    → build_headers b endpoint options "authorization" ≡ some ("Bearer " ^^ token)
unfolding build_headers
authorization_header b endpoint options token e full = ground (arith, eq_iff token "")
