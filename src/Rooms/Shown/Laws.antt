-- ===== src/Rooms/Shown/Laws.antt =====
-- Which rooms are shown, and in what order.
use mathlib.Core.Path.{fun_ext}
use mathlib.Core.List.{Perm}
use Prim.Native.Char.{code}
use lapor_kos.Prelude.{
  String, ◌≡◌, refl, subst, ap, ◌∙◌, [], ◌∷◌, Option, none, some, not, is_none, get_or, false, inl,
  inr, Bool-cases, leb, if◌then◌else◌, Bool, true, ◌&&◌, ◌||◌, List, arith, ◌==◌, filter,
  filter-true, filter_next, IsSorted, IsTotal, IsTransitive, sort-Perm, sort-IsSorted,
}
use lapor_kos.Invitations.Chars.{Chars, chars, is_digit, is_empty, trim}
use lapor_kos.Rooms.{Room}
use lapor_kos.Rooms.Shown.{
  by_tab, by_floor, by_type, by_search, Tab, all, available, occupied, SortBy, number_asc,
  number_desc, price_asc, price_desc, Choice, get_room_floor, shown_floor, contains, is_type,
  is_before, filtered_and_sorted_rooms,
}

abbrev pub is_in_tab : Tab → Room → Bool
is_in_tab all r = true
is_in_tab available r = r.status == "available"
is_in_tab occupied r = r.status == "occupied"

-- A room has a type, and it is the one that is asked for.
abbrev pub has_type : String → Option String → Bool
has_type type t = not (is_none t) && get_or t "" == type

is_type-has_type : (type : String) (t : Option String) → is_type type t ≡ has_type type t
is_type-has_type type none = refl
is_type-has_type type (some t) = refl

by_type-has_type :
    (type : String) (rooms : List Room)
    → by_type type rooms
      ≡ (if not (type == "all") then filter (λ r. has_type type r.type) rooms else rooms)
by_type-has_type type rooms =
    ap (λ (q : Room → Bool). if not (type == "all") then filter q rooms else rooms)
      (fun_ext λ r. is_type-has_type type r.type)

-- The first digit of a number, and 1 where it has none.
abbrev pub first_digit : Chars → Chars
first_digit [] = b'1' ∷ []
first_digit (c ∷ s) = c ∷ []

get_room_floor-digit :
    (number : String) → chars (get_room_floor number) ≡ first_digit (filter is_digit (chars number))
unfolding get_room_floor
get_room_floor-digit String.[] = refl
get_room_floor-digit (String.◌∷◌ c s) = elim (Bool-cases (is_digit (code c))) [
  | inl digit ↦ rw digit refl
  | inr other ↦ rw other (get_room_floor-digit s)
]

-- What is asked of a room that is shown. Its own floor is not asked.
abbrev pub matches : (String → String) → Choice → Room → Bool
matches lower c r =
    ((is_in_tab c.active_tab r
        && (c.filter_floor == "all" || get_room_floor r.room_number == c.filter_floor))
      && (c.filter_type == "all" || has_type c.filter_type r.type))
    && (is_empty (trim (chars c.search_query))
        || contains (lower r.room_number) (lower c.search_query))

by_tab-is_in_tab : (t : Tab) (xs : List Room) → by_tab t xs ≡ filter (is_in_tab t) xs
by_tab-is_in_tab all xs = filter-true xs
by_tab-is_in_tab available xs = refl
by_tab-is_in_tab occupied xs = refl

filters-matches :
    (lower : String → String) (c : Choice) (rooms : List Room)
    → by_search lower c.search_query
        (by_type c.filter_type (by_floor c.filter_floor (by_tab c.active_tab rooms)))
      ≡ filter (matches lower c) rooms
filters-matches lower c rooms =
    ap (by_search lower c.search_query)
      (by_type-has_type c.filter_type (by_floor c.filter_floor (by_tab c.active_tab rooms)))
    ∙ filter_next (is_empty (trim (chars c.search_query))) _ _ _ rooms (
        filter_next (c.filter_type == "all") _ _ _ rooms
          (filter_next (c.filter_floor == "all") _ _ _ rooms (by_tab-is_in_tab c.active_tab rooms)))

-- The rooms that are shown are those of the list that match what is chosen, each as often as it is
-- in the list; the floor that is asked for is the first digit of the number, and 1 where it has none,
-- whatever floor the room has itself.
pub shown-Perm :
    (lower : String → String) (le : String → String → Bool) (c : Choice) (rooms : List Room)
    → Perm (filtered_and_sorted_rooms lower le c rooms) (filter (matches lower c) rooms)
      × ((r : Room)
          → chars (get_room_floor r.room_number)
            ≡ first_digit (filter is_digit (chars r.room_number)))
unfolding filtered_and_sorted_rooms
shown-Perm lower le c rooms = (
  subst (λ xs. Perm (filtered_and_sorted_rooms lower le c rooms) xs) (filters-matches lower c rooms)
      (sort-Perm (is_before le c.sort_by) _),
  λ r. get_room_floor-digit r.room_number,
)

-- A room that is shown on another floor than the first digit of its number is hidden where the floor
-- that it shows is asked for.
pub shown_floor-hidden :
    (lower : String → String) (c : Choice) (r : Room) (floor : String)
    → r.floor ≡ some floor
    → (floor == "") ≡ false
    → (c.filter_floor == "all") ≡ false
    → c.filter_floor ≡ floor
    → (get_room_floor r.room_number == c.filter_floor) ≡ false
    → (shown_floor r ≡ floor) × (matches lower c r ≡ false)
unfolding shown_floor
shown_floor-hidden lower c r floor own full one asked other = (rw (own, full) refl, ground arith)

module _ (le : String → String → Bool) (total : IsTotal le) (transitive : IsTransitive le) where
  is_before-IsTotal : (s : SortBy) → IsTotal (is_before le s)
  is_before-IsTotal number_asc a b = total a.room_number b.room_number
  is_before-IsTotal number_desc a b = total a.room_number b.room_number
  is_before-IsTotal price_asc a b = ground arith
  is_before-IsTotal price_desc a b = ground arith

  is_before-IsTransitive : (s : SortBy) → IsTransitive (is_before le s)
  is_before-IsTransitive number_asc a b c h k =
      transitive a.room_number b.room_number c.room_number h k
  is_before-IsTransitive number_desc a b c h k =
      transitive a.room_number b.room_number c.room_number h k
  is_before-IsTransitive price_asc a b c h k = ground arith
  is_before-IsTransitive price_desc a b c h k = ground arith

-- The order of each choice; that of the falling numbers is the rising one.
abbrev pub ordered : (String → String → Bool) → SortBy → Room → Room → Bool
ordered le price_asc a b = leb a.price_per_month b.price_per_month
ordered le price_desc a b = leb b.price_per_month a.price_per_month
ordered le number_asc a b = le a.room_number b.room_number
ordered le number_desc a b = le a.room_number b.room_number

is_before-ordered : (le : String → String → Bool) (s : SortBy) → is_before le s ≡ ordered le s
is_before-ordered le number_asc = refl
is_before-ordered le number_desc = refl
is_before-ordered le price_asc = refl
is_before-ordered le price_desc = refl

-- If the comparison of numbers is total and transitive, the rooms stand by rising prices, falling prices
-- or rising numbers as is chosen; where falling numbers are chosen, they stand by rising ones.
pub shown-IsSorted :
    (lower : String → String) (le : String → String → Bool) (c : Choice) (rooms : List Room)
    → IsTotal le
    → IsTransitive le
    → IsSorted (ordered le c.sort_by) (filtered_and_sorted_rooms lower le c rooms)
unfolding filtered_and_sorted_rooms
shown-IsSorted lower le c rooms total transitive =
    subst (λ before. IsSorted before (filtered_and_sorted_rooms lower le c rooms))
      (is_before-ordered le c.sort_by)
      (sort-IsSorted (is_before le c.sort_by) (is_before-IsTotal le total transitive c.sort_by)
        (is_before-IsTransitive le total transitive c.sort_by)
        (by_search lower c.search_query
          (by_type c.filter_type (by_floor c.filter_floor (by_tab c.active_tab rooms)))))

-- The choice of falling room numbers shows the list that rising ones show.
pub number_desc-number_asc :
    (lower : String → String) (le : String → String → Bool) (c : Choice) (rooms : List Room)
    → filtered_and_sorted_rooms lower le (record c { sort_by = number_desc }) rooms
      ≡ filtered_and_sorted_rooms lower le (record c { sort_by = number_asc }) rooms
unfolding filtered_and_sorted_rooms
number_desc-number_asc lower le c rooms = refl
