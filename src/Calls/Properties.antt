-- ===== src/Calls/Properties.antt =====
-- frontend/src/features/properties/api.ts, with how it reads the answers: a list stands alone or in
-- a field of an object, and so does a single thing.
use lapor_kos.Prelude.{String, false, Option, List, [], ◌^^◌, get_or}
use lapor_kos.Calls.{Call, call, with_method, with_body, scoped}

pub data PropertyCall (P : Type 0) : Type 0 where
  list_properties : PropertyCall P
  create_property : (payload : P) → PropertyCall P
  update_property : (property_id : String) (payload : P) → PropertyCall P
  list_property_members : (property_id : String) → PropertyCall P
  add_property_member : (property_id : String) (payload : P) → PropertyCall P
  update_property_member : (property_id membership_id : String) (payload : P) → PropertyCall P
  delete_property_member : (property_id membership_id : String) → PropertyCall P

module _ {P : Type 0} (stringify : P → String) where
  unfoldable pub property_call : PropertyCall P → Call
  property_call list_properties = scoped false (call "/api/properties")
  property_call (create_property payload) =
      scoped false (with_body (stringify payload) (with_method "POST" (call "/api/properties")))
  property_call (update_property property_id payload) = scoped false (
      with_body (stringify payload)
        (with_method "PATCH" (call ("/api/properties/" ^^ property_id))))
  property_call (list_property_members property_id) =
      scoped false (call ("/api/properties/" ^^ property_id ^^ "/members"))
  property_call (add_property_member property_id payload) = scoped false (
      with_body (stringify payload)
        (with_method "POST" (call ("/api/properties/" ^^ property_id ^^ "/members"))))
  property_call (update_property_member property_id membership_id payload) = scoped false (
      with_body (stringify payload) (
        with_method "PATCH"
          (call ("/api/properties/" ^^ property_id ^^ "/members/" ^^ membership_id))))
  property_call (delete_property_member property_id membership_id) = scoped false (
      with_method "DELETE"
        (call ("/api/properties/" ^^ property_id ^^ "/members/" ^^ membership_id)))

-- An answer with a list: `PropertiesResponse`, `MembersResponse`.
pub data ListAnswer (A : Type 0) : Type 0 where
  array : List A → ListAnswer A
  in_field : Option (List A) → ListAnswer A

-- `Array.isArray(response) ? response : response.field ?? []`
abbrev pub list_of : {A : Type 0} → ListAnswer A → List A
list_of (array xs) = xs
list_of (in_field xs) = get_or xs []

-- An answer with one thing.
pub data SingleAnswer (A : Type 0) : Type 0 where
  bare wrapped : A → SingleAnswer A

-- `'field' in response ? response.field : response`
abbrev pub single_of : {A : Type 0} → SingleAnswer A → A
single_of (bare a) = a
single_of (wrapped a) = a
