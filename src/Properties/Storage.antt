-- ===== src/Properties/Storage.antt =====
-- frontend/src/features/properties/storage.ts: the active property's id in the local storage.
use lapor_kos.Prelude.{String, Option, none, if◌then◌else◌}
use lapor_kos.Browser.{Browser, set_item, remove_item}

abbrev pub active_property_key : String
active_property_key = "lapor-kos:active-property-id"

unfoldable pub get_stored_active_property_id : Browser → Option String
get_stored_active_property_id b = if b.has_window then b.local_storage active_property_key else none

unfoldable pub set_stored_active_property_id : String → Browser → Browser
set_stored_active_property_id property_id b =
    if b.has_window
    then record b { local_storage = set_item active_property_key property_id b.local_storage }
    else b

unfoldable pub clear_stored_active_property_id : Browser → Browser
clear_stored_active_property_id b =
    if b.has_window
    then record b { local_storage = remove_item active_property_key b.local_storage }
    else b
