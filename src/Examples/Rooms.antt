-- ===== src/Examples/Rooms.antt =====
-- The list of the rooms: frontend/src/app/(dashboard)/rooms/page.tsx.
use Prim.Native.String.{len}
use mathlib.Core.List.{Perm}
use lapor_kos.Prelude.{
  String, ℕ, ◌≡◌, refl, Bool, List, [], ◌∷◌, none, some, arith, leb, filter, length, IsSorted,
  IsTotal, IsTransitive,
}
use lapor_kos.Invitations.Chars.{chars, is_digit, trim}
use lapor_kos.Rooms.{Room}
use lapor_kos.Rooms.Pages.{total_pages}
use lapor_kos.Rooms.Pages.Laws.{first_pages, first_pages-total_pages}
use lapor_kos.Rooms.Csv.{csv_line}
use lapor_kos.Rooms.Csv.Laws.{read_line, read_line-csv_line}
use lapor_kos.Rooms.Stats.{stats}
use lapor_kos.Rooms.Shown.{Choice, get_room_floor, all, price_desc, filtered_and_sorted_rooms}
use lapor_kos.Rooms.Shown.Laws.{matches, ordered, first_digit, shown-Perm, shown-IsSorted}

abbrev room : String → ℕ → String → Room
room number price status = record {
  id = number;
  room_number = number;
  price_per_month = price;
  status = status;
  type = none;
  floor = none;
}

abbrev rooms : List Room
rooms = room "201" 900 "occupied" ∷ room "102" 1200 "available" ∷ room "103" 700 "occupied" ∷ []

abbrev lower : String → String
lower s = s

abbrev le : String → String → Bool
le a b = leb (len a) (len b)

le-IsTotal : IsTotal le
le-IsTotal a b = ground arith

le-IsTransitive : IsTransitive le
le-IsTransitive a b c h k = ground arith

abbrev dearest : Choice
dearest = record {
  active_tab = all;
  filter_floor = "1";
  filter_type = "all";
  search_query = "";
  sort_by = price_desc;
}

shown_test :
    filtered_and_sorted_rooms lower le dearest rooms
    ≡ room "102" 1200 "available" ∷ room "103" 700 "occupied" ∷ []
unfolding filtered_and_sorted_rooms get_room_floor trim
shown_test = refl

stats_test : stats rooms ≡ record { total = 3; occupied = 2; available = 1; occupancy_rate = 67 }
unfolding stats
stats_test = refl

first_pages-total_pages_example : first_pages 2 (total_pages (length rooms) 2) rooms ≡ rooms
first_pages-total_pages_example = first_pages-total_pages 2 rooms (omega arith)

read_line-csv_line_example :
    read_line (csv_line (chars "a\"b" ∷ chars "c;d" ∷ [])) ≡ some (chars "a\"b" ∷ chars "c;d" ∷ [])
read_line-csv_line_example = read_line-csv_line (chars "a\"b") (chars "c;d" ∷ [])

shown-Perm_example :
    Perm (filtered_and_sorted_rooms lower le dearest rooms) (filter (matches lower dearest) rooms)
    × ((r : Room)
        → chars (get_room_floor r.room_number)
          ≡ first_digit (filter is_digit (chars r.room_number)))
shown-Perm_example = shown-Perm lower le dearest rooms

shown-IsSorted_example :
    IsSorted (ordered le price_desc) (filtered_and_sorted_rooms lower le dearest rooms)
shown-IsSorted_example = shown-IsSorted lower le dearest rooms le-IsTotal le-IsTransitive
