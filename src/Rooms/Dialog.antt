-- ===== src/Rooms/Dialog.antt =====
-- frontend/src/app/(dashboard)/rooms/page.tsx: the dialog of a room: its facilities, its price, and
-- what is sent. The tenant's step of the dialog is left out.
pub mod Laws
use lapor_kos.Prelude.{
  String, ℕ, Bool, true, false, not, ◌&&◌, Option, none, some, List, [], ◌∷◌, ◌++◌, ◌==◌, eqb, any,
  filter, map, take, if◌then◌else◌,
}
use lapor_kos.Invitations.Chars.{Chars, is_digit, is_empty, same, trim}
use lapor_kos.Rooms.Csv.{join}

-- `[first + x, ...rest]` of the parts of a text that begins with one more character.
abbrev pub put_first : ℕ → List Chars → List Chars
put_first c [] = (c ∷ []) ∷ []
put_first c (x ∷ xs) = (c ∷ x) ∷ xs

-- `.split(',')`
abbrev pub split : Chars → List Chars
split [] = [] ∷ []
split (c ∷ s) = let rest = split s in if eqb c b',' then [] ∷ rest else put_first c rest

-- `.map(s => s.trim()).filter(Boolean)`
abbrev pub tidy : List Chars → List Chars
tidy xs = filter (λ x. not (is_empty x)) (map trim xs)

-- The facilities that the dialog of a room opens with.
unfoldable pub facilities_of : Chars → List Chars
facilities_of description = if is_empty description then [] else tidy (split description)

-- `facilities.join(', ')`
unfoldable pub description_of : List Chars → Chars
description_of facilities = join (b',' ∷ b' ' ∷ []) facilities

unfoldable pub handle_add_facility : Chars → List Chars → List Chars
handle_add_facility tag facilities =
    if not (is_empty (trim tag)) && not (any (λ f. same f (trim tag)) facilities)
    then facilities ++ (trim tag ∷ [])
    else facilities

unfoldable pub handle_remove_facility : Chars → List Chars → List Chars
handle_remove_facility tag facilities = filter (λ f. not (same f tag)) facilities

-- `handlePriceChange`: the digits, at most seven of them.
unfoldable pub handle_price_change : Chars → Chars
handle_price_change value = take 7 (filter is_digit value)

pub record RoomForm : Type 0 where
  pub room_number : String
  pub price_per_month : Chars
  pub status : String
  pub type : String
  pub floor : String

pub record RoomPayload : Type 0 where
  pub form : RoomForm
  pub description : Chars

-- What the submission does: it goes on to the tenant's step, or sends a changed or a new room.
pub data Submitted : Type 0 where
  second_step : Submitted
  put : (room_id : String) → RoomPayload → Submitted
  post : RoomPayload → Submitted

-- `handleSubmit`, by the id of the room that is edited. The price is sent as a number.
unfoldable pub handle_submit : Option String → RoomForm → List Chars → Submitted
unfolding description_of
handle_submit none form facilities =
    if form.status == "occupied"
    then second_step
    else post (record { form = form; description = description_of facilities })
handle_submit (some id) form facilities =
    put id (record { form = form; description = description_of facilities })
