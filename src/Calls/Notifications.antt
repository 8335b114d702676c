-- ===== src/Calls/Notifications.antt =====
-- frontend/src/features/notifications/api.ts. `encode` is `toString` of a `URLSearchParams` with
-- the keys set in turn.
use lapor_kos.Prelude.{
  String, ℕ, Bool, not, ◌&&◌, Option, none, some, List, [], ◌∷◌, ◌==◌, ◌^^◌, truthy, get_or,
  if◌then◌else◌,
}
use lapor_kos.Api.Options.{set_header, no_headers}
use lapor_kos.Calls.{Call, call, with_method, with_body, for_property, given_params, number_param}

pub data NotificationCall (P : Type 0) : Type 0 where
  get_notifications :
      (category : Option String) (unread_only : Bool) (limit offset : Option ℕ) → NotificationCall P
  get_unread_count : NotificationCall P
  mark_notification_read : (id : String) → NotificationCall P
  mark_all_notifications_read : NotificationCall P
  delete_notification : (id : String) → NotificationCall P
  get_notification_preferences : NotificationCall P
  update_notification_preferences : (req : P) → NotificationCall P
  get_outbox_list :
      (property_id : String) (status channel : Option String) (limit offset : Option ℕ)
      → NotificationCall P
  get_outbox_item retry_outbox_item : (property_id outbox_id : String) → NotificationCall P

-- A choice, where it is not `all`.
abbrev chosen : Option String → Option String
chosen choice = if truthy choice && not (get_or choice "" == "all") then choice else none

-- `qs ? '?' + qs : ''`
abbrev query_part : String → String
query_part qs = if not (qs == "") then "?" ^^ qs else ""

abbrev with_json_type : Call → Call
with_json_type c = record c {
  options = record c.options { headers = set_header "content-type" "application/json" no_headers };
}

abbrev outbox : String → String → Call
outbox property_id part =
    for_property property_id
      (call ("/api/v1/properties/" ^^ property_id ^^ "/notifications/outbox" ^^ part))

module _ {P : Type 0} (stringify : P → String) (encode : List (String × String) → String) where
  unfoldable pub notification_call : NotificationCall P → Call
  notification_call (get_notifications category unread_only limit offset) = call (
      "/api/notifications"
      ^^ query_part (
          encode (
            given_params (
              ("category", chosen category)
              ∷ ("unread_only", (if unread_only then some "true" else none))
              ∷ ("limit", number_param limit)
              ∷ ("offset", number_param offset)
              ∷ []))))
  notification_call get_unread_count = call "/api/notifications/unread-count"
  notification_call (mark_notification_read id) =
      with_method "POST" (call ("/api/notifications/" ^^ id ^^ "/read"))
  notification_call mark_all_notifications_read =
      with_method "POST" (call "/api/notifications/read-all")
  notification_call (delete_notification id) =
      with_method "DELETE" (call ("/api/notifications/" ^^ id))
  notification_call get_notification_preferences = call "/api/notifications/preferences"
  notification_call (update_notification_preferences req) =
      with_body (stringify req)
        (with_json_type (with_method "PUT" (call "/api/notifications/preferences")))
  notification_call (get_outbox_list property_id status channel limit offset) = outbox property_id (
      query_part (
        encode (
          given_params (
            ("status", chosen status)
            ∷ ("channel", chosen channel)
            ∷ ("limit", number_param limit)
            ∷ ("offset", number_param offset)
            ∷ []))))
  notification_call (get_outbox_item property_id outbox_id) = outbox property_id ("/" ^^ outbox_id)
  notification_call (retry_outbox_item property_id outbox_id) =
      with_method "POST" (outbox property_id ("/" ^^ outbox_id ^^ "/retry"))
