-- ===== src/Examples/Calls.antt =====
-- Calls of the server: frontend/src/lib/api.ts.
use lapor_kos.Prelude.{
  inr, show, String, ℕ, ◌+◌, ◌≡◌, refl, ◌⊎◌, inl, true, false, List, Option, none, some, ◌==◌,
}
use lapor_kos.Browser.{Browser}
use lapor_kos.Properties.Storage.{active_property_key, get_stored_active_property_id}
use lapor_kos.Auth.{token_key, get_token, is_authenticated}
use lapor_kos.Api.Options.{
  RequestOptions, no_headers, no_body, should_scope, is_unscoped_endpoint, build_headers, build_url,
  get_request_key,
}
use lapor_kos.Api.Request.{Response, object, returned, thrown, error_message, read_api_response}
use lapor_kos.Api.Request.Laws.{IsRefused, session_end}
use lapor_kos.Api.InFlight.{Pending, InFlight, empty, fetch, clear}
use lapor_kos.Api.InFlight.Laws.{
  IsPending, IsCoherent, Reach, start, next, call, Reach-IsCoherent, get_restarts,
}

abbrev signed_in : Browser
signed_in = record {
  has_window = true;
  local_storage = λ k. elim (k == token_key) [
    | true ↦ some "t"
    | false ↦ elim (k == active_property_key) [ true ↦ some "kos-1" | false ↦ none ]
  ];
  session_storage = λ k. none;
  cookies = λ k. none;
  is_https = true;
  pathname = "/rooms";
}

abbrev plain : RequestOptions
plain = record {
  method = none;
  params = none;
  property_scoped = none;
  headers = no_headers;
  body = no_body;
}

me_unscoped : should_scope "/api/auth/me" plain ≡ false
unfolding is_unscoped_endpoint
me_unscoped = refl

rooms_scoped : should_scope "/api/rooms" plain ≡ true
unfolding is_unscoped_endpoint
rooms_scoped = refl

signed_in_token : get_token signed_in ≡ some "t"
unfolding get_token
signed_in_token = refl

signed_in_property : get_stored_active_property_id signed_in ≡ some "kos-1"
unfolding get_stored_active_property_id
signed_in_property = refl

-- A URL class that joins its two arguments.
abbrev join : String → String → List (String × String) → String
join endpoint base params = base

request_key :
    get_request_key join "http://api/" signed_in "/api/rooms" plain ≡ "http://api/|Bearer t|kos-1|"
unfolding get_request_key build_url build_headers is_unscoped_endpoint get_token
    get_stored_active_property_id
request_key = refl

abbrev answer : ℕ → Option String → Response
answer status error = record {
  status = status;
  json_body = object (record { error = error; message = none });
  text_body = returned "";
  content_length = none;
  includes_json = true;
}

gone : IsRefused (answer 404 (some "User not found"))
gone = inr (refl, refl)

fallback : error_message (answer 404 none) ≡ "Permintaan gagal (404)"
unfolding error_message show
fallback = refl

session_end_example :
    let (e, o) = read_api_response signed_in (answer 404 (some "User not found")) in
    (o ≡ thrown (error_message (answer 404 (some "User not found"))))
    × (is_authenticated e.browser ≡ false)
    × ((e.assigned ≡ some "/login")
        ⊎ ((e.assigned ≡ none)
            × ((signed_in.pathname ≡ "/login") ⊎ (signed_in.pathname ≡ "/register"))))
session_end_example = session_end signed_in (answer 404 (some "User not found")) gone refl

abbrev one : InFlight
one = (fetch "GET" "k" empty).0

abbrev first : Pending
first = record { promise = 0; key = "k" }

one-Reach : Reach one
one-Reach = next start (call "GET" "k" empty)

one_pending : IsPending one.pending "k" 0
unfolding fetch
one_pending = inl (refl, refl)

Reach-IsCoherent_example : IsCoherent one
Reach-IsCoherent_example = Reach-IsCoherent one one-Reach

get_restarts_example :
    let (t, p) = fetch "GET" "k" (clear first one) in
    (t.started ≡ one.started + 1) × (p ≡ one.started) × (fetch "GET" "k" t ≡ (t, p))
get_restarts_example = get_restarts one first one-Reach one_pending
