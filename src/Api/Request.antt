-- ===== src/Api/Request.antt =====
-- frontend/src/lib/api.ts: how a response is read, and what a refusal does to the session. The
-- response itself comes from `fetch` and is an argument.
pub mod Laws
use lapor_kos.Prelude.{
  String, ℕ, Bool, true, false, not, ◌&&◌, ◌||◌, List, [], ◌∷◌, Option, none, some, ◌==◌, ◌^^◌, eqb,
  leb, truthy, or_else, get_or, show, if◌then◌else◌,
}
use lapor_kos.Browser.{Browser}
use lapor_kos.Auth.{remove_token}

pub record ErrorPayload : Type 0 where
  pub error : Option String
  pub message : Option String

pub data Outcome {ℓ} (A : Type ℓ) : Type ℓ where
  returned : A → Outcome A
  thrown : String → Outcome A

-- What `response.json()` gives: it throws, or gives an object (read for the two fields), or
-- something else, such as `null`.
pub data JsonBody : Type 0 where
  not_json : (message : String) → JsonBody
  other_json : JsonBody
  object : ErrorPayload → JsonBody

-- `text_body` is what `response.text()` gives; `includes_json` says whether the content type includes
-- `application/json`.
pub record Response : Type 0 where
  pub status : ℕ
  pub json_body : JsonBody
  pub text_body : Outcome String
  pub content_length : Option String
  pub includes_json : Bool

-- `response.ok`
abbrev pub is_ok : Response → Bool
is_ok r = leb 200 r.status && leb r.status 299

abbrev empty_payload : ErrorPayload
empty_payload = record { error = none; message = none }

abbrev message_of : Outcome String → ErrorPayload
message_of (returned text) =
    if not (text == "") then record { error = none; message = some text } else empty_payload
message_of (thrown m) = empty_payload

parse_error : Response → ErrorPayload
parse_error r = elim r.json_body [
  | object payload ↦ payload
  | other_json ↦ empty_payload
  | not_json m ↦ message_of r.text_body
]

abbrev pub failure_text : ℕ → String
failure_text status = "Permintaan gagal (" ^^ show status ^^ ")"

unfoldable pub error_message : Response → String
unfolding parse_error
error_message r =
    let payload = parse_error r in
    get_or (or_else payload.error (or_else payload.message (some (failure_text r.status)))) ""

-- Is the session over?
unfoldable pub ends_session : Response → Bool
unfolding parse_error
ends_session r =
    eqb r.status 401 || eqb r.status 404 && get_or (parse_error r).error "" == "User not found"

-- The browser after the response, and where `window.location.assign` sends it.
pub record Effect : Type 0 where
  pub browser : Browser
  pub assigned : Option String

abbrev to_login : Browser → Option String
to_login b =
    if b.has_window && not (b.pathname == "/login") && not (b.pathname == "/register")
    then some "/login"
    else none

unfoldable pub request : Browser → Response → Effect × Outcome Response
unfolding ends_session error_message
request b r = if is_ok r then (record { browser = b; assigned = none }, returned r) else (
  (if ends_session r
      then record { browser = remove_token b; assigned = to_login b }
      else record { browser = b; assigned = none }),
  thrown (error_message r),
)

-- What `readApiResponse` resolves to.
pub data Payload : Type 0 where
  undefined : Payload
  text json : Response → Payload

abbrev pub read_json : Response → JsonBody → Outcome Payload
read_json r (not_json m) = thrown m
read_json r other_json = returned (json r)
read_json r (object payload) = returned (json r)

abbrev pub read_text : Response → Outcome String → Outcome Payload
read_text r (returned t) = returned (text r)
read_text r (thrown m) = thrown m

abbrev pub read_payload : Response → Outcome Payload
read_payload r =
    if eqb r.status 204 || get_or r.content_length "" == "0"
    then returned undefined
    else if r.includes_json
    then read_json r r.json_body
    else read_text r r.text_body

abbrev read_outcome : Outcome Response → Outcome Payload
read_outcome (returned r) = read_payload r
read_outcome (thrown message) = thrown message

unfoldable pub read_api_response : Browser → Response → Effect × Outcome Payload
unfolding request
read_api_response b r = let (e, o) = request b r in (e, read_outcome o)
