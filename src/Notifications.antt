-- ===== src/Notifications.antt =====
-- frontend/src/features/notifications/components: the bell and the preferences. What is only shown
-- of a notification is left out.
pub mod Laws
use lapor_kos.Prelude.{
  String, ℕ, ◌-◌, Bool, true, false, not, Option, none, some, List, [], ◌∷◌, ◌++◌, ◌==◌, filter,
  includes, map, truthy, if◌then◌else◌,
}
use lapor_kos.Api.Request.{Outcome, returned, thrown}

pub record Notification : Type 0 where
  pub id : String
  pub is_read : Bool
  pub action_url : Option String

-- The cells of `NotificationBell`.
pub record Bell : Type 0 where
  pub is_open : Bool
  pub unread_count : ℕ
  pub recent : List Notification
  pub is_loading : Bool

unfoldable pub refresh_unread : Outcome ℕ → Bell → Bell
refresh_unread (returned count) b = record b { unread_count = count }
refresh_unread (thrown message) b = b

-- `loadRecent`, once the list and the count are there, or not.
unfoldable pub load_recent : Outcome (List Notification × ℕ) → Bell → Bell
load_recent (returned (notifications, count)) b = record b {
  recent = notifications;
  unread_count = count;
  is_loading = false;
}
load_recent (thrown message) b = record b { is_loading = false }

-- `toggleDropdown`: the bell, and whether the list is loaded.
unfoldable pub toggle_dropdown : Bell → Bell × Bool
toggle_dropdown b =
    if b.is_open
    then (record b { is_open = false }, false)
    else (record b { is_open = true; is_loading = true }, true)

abbrev pub read_it : Notification → Notification
read_it n = record n { is_read = true }

unfoldable pub handle_mark_all_read : {J : Type 0} → Outcome J → Bell → Bell
handle_mark_all_read (returned _) b = record b { unread_count = 0; recent = map read_it b.recent }
handle_mark_all_read (thrown message) b = b

abbrev pub read_one : String → Notification → Notification
read_one id n = if n.id == id then read_it n else n

abbrev marked : {J : Type 0} → String → Outcome J → Bell → Bell
marked id (returned _) b = record b {
  unread_count = b.unread_count - 1;
  recent = map (read_one id) b.recent;
}
marked id (thrown message) b = b

-- `handleItemClick`, with the answer of the call that it makes for an unread one: the bell, and
-- where the page goes.
unfoldable pub handle_item_click :
    {J : Type 0} → Notification → Outcome J → Bell → Bell × Option String
handle_item_click n o b =
    let after = if not n.is_read then marked n.id o b else b in
    if truthy n.action_url then (record after { is_open = false }, n.action_url) else (after, none)

-- `handleDelete`, with the answers of the deletion and of the count.
unfoldable pub handle_delete : {J : Type 0} → String → Outcome J → Outcome ℕ → Bell → Bell
unfolding refresh_unread
handle_delete id (returned _) count b =
    refresh_unread count (record b { recent = filter (λ n. not (n.id == id)) b.recent })
handle_delete id (thrown message) count b = b

-- `handleToggleOptOut` of `NotificationPreferencesForm`, on the categories of the preferences.
unfoldable pub handle_toggle_opt_out : String → List String → List String
handle_toggle_opt_out category opted_out =
    if includes opted_out category
    then filter (λ c. not (c == category)) opted_out
    else opted_out ++ (category ∷ [])
