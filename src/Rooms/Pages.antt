-- ===== src/Rooms/Pages.antt =====
-- frontend/src/app/(dashboard)/rooms/page.tsx: the pages of the list and the buttons below it.
pub mod Laws
use lapor_kos.Prelude.{
  ℕ, ◌+◌, ◌-◌, ◌*◌, ◌/◌, Bool, ◌||◌, List, [], ◌∷◌, eqb, leb, ltb, take, drop, length,
  if◌then◌else◌,
}

-- `Math.min` and `Math.max`
abbrev pub min : ℕ → ℕ → ℕ
min a b = if leb a b then a else b

abbrev pub max : ℕ → ℕ → ℕ
max a b = if leb a b then b else a

-- `currentPage` and `itemsPerPage`
pub record Paging : Type 0 where
  pub current_page : ℕ
  pub items_per_page : ℕ

abbrev pub initial : Paging
initial = record { current_page = 1; items_per_page = 10 }

-- `totalPages`, which is `Math.ceil(count / itemsPerPage)`.
unfoldable pub total_pages : ℕ → ℕ → ℕ
total_pages count items_per_page = (count + (items_per_page - 1)) / items_per_page

-- `xs.slice(first, last)`
abbrev slice {ℓ} : {A : Type ℓ} → ℕ → ℕ → List A → List A
slice first last xs = take (last - first) (drop first xs)

-- `paginatedRooms`
unfoldable pub paginated {ℓ} : {A : Type ℓ} → Paging → List A → List A
paginated p xs =
    slice ((p.current_page - 1) * p.items_per_page) (p.current_page * p.items_per_page) xs

-- The first number of `Menampilkan … - … dari …`.
unfoldable pub first_shown : Paging → ℕ → ℕ
first_shown p count =
    if ltb 0 count then min ((p.current_page - 1) * p.items_per_page + 1) count else 0

-- The second one.
unfoldable pub last_shown : Paging → ℕ → ℕ
last_shown p count = min (p.current_page * p.items_per_page) count

-- The button to the left is pressed; a disabled button does nothing.
unfoldable pub previous : ℕ → Paging → Paging
previous count p =
    if eqb p.current_page 1 || eqb count 0
    then p
    else record p { current_page = max 1 (p.current_page - 1) }

-- The button to the right is pressed.
unfoldable pub next : ℕ → Paging → Paging
next count p =
    let total = total_pages count p.items_per_page in
    if eqb p.current_page total || eqb count 0
    then p
    else record p { current_page = min total (p.current_page + 1) }

-- The button of page `i + 1` is pressed; there are `Math.max(1, totalPages)` of them.
unfoldable pub go : ℕ → Paging → Paging
go i p = record p { current_page = i + 1 }

-- Another number of rows is chosen.
unfoldable pub resize : ℕ → Paging → Paging
resize n p = record { current_page = 1; items_per_page = n }

-- The effect that follows a change of the search, of a filter or of the order.
unfoldable pub reset : Paging → Paging
reset p = record p { current_page = 1 }

-- The choices of the number of rows.
abbrev pub sizes : List ℕ
sizes = 5 ∷ 10 ∷ 20 ∷ 50 ∷ []
