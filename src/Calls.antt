-- ===== src/Calls.antt =====
-- The functions in frontend/src/features/*/api.ts, each as what it hands to `apiFetch`: the endpoint
-- and the options. The payload that a caller gives is of a type `P`; `stringify` is
-- `JSON.stringify` on it, `stringify_fields` on an object whose fields are written out in the file.
pub mod Transfers
pub mod Checkouts
pub mod Visitors
pub mod Payments
pub mod Invoices
pub mod Finance
pub mod Complaints
pub mod Audit
pub mod Notifications
pub mod Rules
pub mod Properties
pub mod Laws
use lapor_kos.Prelude.{
  String, ℕ, Bool, true, none, some, Option, List, [], ◌∷◌, eqb, show, truthy, get_or,
  if◌then◌else◌,
}
use lapor_kos.Api.Options.{RequestOptions, Headers, Body, no_body, text, no_headers, set_header}

pub record Call : Type 0 where
  pub endpoint : String
  pub options : RequestOptions

-- `apiFetch(endpoint)`
abbrev pub call : String → Call
call endpoint = record {
  endpoint = endpoint;
  options = record {
    method = none;
    params = none;
    property_scoped = none;
    headers = no_headers;
    body = no_body;
  };
}

-- An option written out in the call.
abbrev pub with_method : String → Call → Call
with_method method c = record c { options = record c.options { method = some method } }

abbrev pub with_params : List (String × String) → Call → Call
with_params params c = record c { options = record c.options { params = some params } }

abbrev pub with_body : String → Call → Call
with_body body c = record c { options = record c.options { body = text body } }

-- `propertyScoped: b`
abbrev pub scoped : Bool → Call → Call
scoped b c = record c { options = record c.options { property_scoped = some b } }

-- `headers: { 'X-Property-ID': id }`
abbrev pub for_property : String → Call → Call
for_property id c = record c {
  options = record c.options { headers = set_header "x-property-id" id no_headers };
}

-- `if (value) params.key = value`, for the keys in turn.
abbrev pub given_params : List (String × Option String) → List (String × String)
given_params [] = []
given_params ((key, value) ∷ rest) =
    let more = given_params rest in if truthy value then (key, get_or value "") ∷ more else more

-- A number among such values, as its text: 0 counts as missing.
abbrev pub number_param : Option ℕ → Option String
number_param none = none
number_param (some n) = if eqb n 0 then none else some (show n)

-- The value of a field in an object of a body.
pub data Field : Type 0 where
  undefined : Field
  text_field : String → Field
  number_field : ℕ → Field
  flag_field : Bool → Field

abbrev pub optional_field : Option String → Field
optional_field none = undefined
optional_field (some s) = text_field s

abbrev pub Fields : Type 0
Fields = List (String × Field)
