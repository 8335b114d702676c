-- ===== src/Rooms/Shown.antt =====
-- frontend/src/app/(dashboard)/rooms/page.tsx: the rooms that are shown, and their order.
-- `toLowerCase` is a parameter, and so is `localeCompare` of the platform, as a test for a result
-- that is not positive.
pub mod Laws
use Prim.Native.Char.{code}
use text.Mathlib.Text.{find?}
use lapor_kos.Prelude.{
  String, ℕ, Bool, not, List, [], ◌∷◌, Option, none, some, true, false, ◌==◌, leb, filter, get_or,
  is_none, if◌then◌else◌, sort,
}
use lapor_kos.Invitations.Chars.{chars, is_digit, is_empty, trim}
use lapor_kos.Rooms.{Room}
use lapor_kos.Tenants.{or_text}

pub data Tab : Type 0 where
  all available occupied : Tab

pub data SortBy : Type 0 where
  number_asc number_desc price_asc price_desc : SortBy

-- What is chosen above the list.
pub record Choice : Type 0 where
  pub active_tab : Tab
  pub filter_floor : String
  pub filter_type : String
  pub search_query : String
  pub sort_by : SortBy

-- `getRoomFloor`
unfoldable pub get_room_floor : String → String
get_room_floor String.[] = "1"
get_room_floor (String.◌∷◌ c s) =
    let rest = get_room_floor s in if is_digit (code c) then String.◌∷◌ c "" else rest

-- The floor that the list shows of a room: `room.floor || getRoomFloor(room.room_number)`.
unfoldable pub shown_floor : Room → String
shown_floor r = or_text r.floor (get_room_floor r.room_number)

-- `text.includes(part)`
abbrev pub contains : String → String → Bool
contains text part = not (is_none (find? text part))

abbrev pub by_tab : Tab → List Room → List Room
by_tab all rooms = rooms
by_tab available rooms = filter (λ r. r.status == "available") rooms
by_tab occupied rooms = filter (λ r. r.status == "occupied") rooms

abbrev pub by_floor : String → List Room → List Room
by_floor floor rooms =
    if not (floor == "all")
    then filter (λ r. get_room_floor r.room_number == floor) rooms
    else rooms

abbrev pub is_type : String → Option String → Bool
is_type type none = false
is_type type (some t) = t == type

abbrev pub by_type : String → List Room → List Room
by_type type rooms = if not (type == "all") then filter (λ r. is_type type r.type) rooms else rooms

abbrev pub by_search : (String → String) → String → List Room → List Room
by_search lower query rooms =
    if not (is_empty (trim (chars query)))
    then filter (λ r. contains (lower r.room_number) (lower query)) rooms
    else rooms

-- The comparison puts `a` before `b`, or takes them for equal.
abbrev pub is_before : (String → String → Bool) → SortBy → Room → Room → Bool
is_before le price_asc a b = leb a.price_per_month b.price_per_month
is_before le price_desc a b = leb b.price_per_month a.price_per_month
is_before le number_asc a b = le a.room_number b.room_number
is_before le number_desc a b = le a.room_number b.room_number

-- `filteredAndSortedRooms`
unfoldable pub filtered_and_sorted_rooms :
    (String → String) → (String → String → Bool) → Choice → List Room → List Room
filtered_and_sorted_rooms lower le c rooms = sort (is_before le c.sort_by) (
    by_search lower c.search_query
      (by_type c.filter_type (by_floor c.filter_floor (by_tab c.active_tab rooms))))
