-- ===== src/Api/Request/Laws.antt =====
-- When a request throws, and when it ends the session.
use lapor_kos.Prelude.{
  String, ◌≡◌, ◌≢◌, ◌↔◌, ◌⊎◌, true, false, Option, none, some, arith, eq_iff, get_or, ◌==◌,
}
use lapor_kos.Browser.{Browser}
use lapor_kos.Auth.{is_authenticated}
use lapor_kos.Auth.Laws.{remove_token_clears}
use lapor_kos.Api.Request.{
  JsonBody, not_json, object, Response, Outcome, returned, thrown, Payload, undefined, text, json,
  parse_error, ends_session, error_message, read_api_response,
}

-- The `error` of the object that was answered.
abbrev pub answered_error : JsonBody → Option String
answered_error (object payload) = payload.error
answered_error _ = none

-- The server knows the caller no more.
abbrev pub IsRefused : Response → Type 0
IsRefused r =
    (r.status ≡ 401) ⊎ ((r.status ≡ 404) × (answered_error r.json_body ≡ some "User not found"))

is_user_not_found_iff :
    (e : Option String) → ((get_or e "" == "User not found") ≡ true) ↔ (e ≡ some "User not found")
is_user_not_found_iff none = ground (arith, eq_iff "" "User not found")
is_user_not_found_iff (some e) = ground (arith, eq_iff e "User not found")

error-parse_error : (r : Response) → (parse_error r).error ≡ answered_error r.json_body
unfolding parse_error
error-parse_error r = ground arith

ends_session_iff : (r : Response) → (ends_session r ≡ true) ↔ IsRefused r
unfolding ends_session
ends_session_iff r =
    ground (arith, is_user_not_found_iff (parse_error r).error, error-parse_error r)

-- A call that answers 401, or 404 with the error `User not found`, throws, and in the browser it
-- logs the user out and goes to the login page, but on the login and registration pages.
pub session_end :
    (b : Browser) (r : Response)
    → IsRefused r
    → b.has_window ≡ true
    → let (e, o) = read_api_response b r in
      (o ≡ thrown (error_message r))
      × (is_authenticated e.browser ≡ false)
      × ((e.assigned ≡ some "/login")
          ⊎ ((e.assigned ≡ none) × ((b.pathname ≡ "/login") ⊎ (b.pathname ≡ "/register"))))
unfolding read_api_response
session_end b r h w = ground (
  arith,
  (ends_session_iff r).1 h,
  remove_token_clears b w,
  eq_iff b.pathname "/login",
  eq_iff b.pathname "/register",
)

-- What reading the body of an answer that is no failure comes to: nothing is read of an empty one; else
-- the JSON or the text, by the content type, and what that throws is thrown.
pub data Reads (r : Response) : Outcome Payload → Type 0 where
  empty : (r.status ≡ 204) ⊎ (r.content_length ≡ some "0") → Reads r (returned undefined)
  json_read :
      r.includes_json ≡ true
      → ((m : String) → r.json_body ≢ not_json m)
      → Reads r (returned (json r))
  json_failed :
      (m : String) → r.includes_json ≡ true → r.json_body ≡ not_json m → Reads r (thrown m)
  text_read :
      (t : String)
      → r.includes_json ≡ false
      → r.text_body ≡ returned t
      → Reads r (returned (text r))
  text_failed : (m : String) → r.includes_json ≡ false → r.text_body ≡ thrown m → Reads r (thrown m)
