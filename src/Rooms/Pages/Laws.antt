-- ===== src/Rooms/Pages/Laws.antt =====
-- What the pages show.
use lapor_kos.Prelude.{
  ℕ, zero, suc, ◌+◌, ◌-◌, ◌*◌, ◌≤◌, ◌<◌, ◌≡◌, ◌∙◌, refl, sym, ap, List, [], ◌∷◌, ◌++◌, arith, take,
  drop, length, take_all, length-drop, Any,
}
use native.Mathlib.Nat.{div-mul-le_self, lt-div-mul-add, mul-le-mul_right, le-div_iff_mul-le}
use lapor_kos.Rooms.Pages.{
  Paging, initial, min, max, sizes, total_pages, paginated, previous, next, go, resize, reset,
  first_shown, last_shown,
}

abbrev at : ℕ → ℕ → Paging
at page size = record { current_page = page; items_per_page = size }

-- The first `n` pages, one after the other.
abbrev pub first_pages {ℓ} : {A : Type ℓ} → ℕ → ℕ → List A → List A
first_pages size zero xs = []
first_pages size (suc n) xs = first_pages size n xs ++ paginated (at (suc n) size) xs

take-nil {ℓ} : {A : Type ℓ} (n : ℕ) → take {A = A} n [] ≡ []
take-nil zero = refl
take-nil (suc n) = refl

take-add {ℓ} :
    {A : Type ℓ} (m n : ℕ) (xs : List A) → take m xs ++ take n (drop m xs) ≡ take (m + n) xs
take-add zero n xs = let same : n ≡ 0 + n = omega arith in ap (λ k. take k xs) same
take-add (suc m) n [] = take-nil n ∙ sym (take-nil (suc m + n))
take-add (suc m) n (x ∷ xs) =
    let same : suc (m + n) ≡ suc m + n = omega arith in
    ap (λ t. x ∷ t) (take-add m n xs) ∙ ap (λ k. take k (x ∷ xs)) same

-- Where a page ends.
page_end : (page size : ℕ) → 1 ≤ page → page * size ≡ (page - 1) * size + size
page_end zero size h = absurd (omega arith)
page_end (suc k) size h = grind arith

first_pages-take {ℓ} :
    {A : Type ℓ} (size n : ℕ) (xs : List A) → first_pages size n xs ≡ take (n * size) xs
unfolding paginated
first_pages-take size zero xs = let same : 0 ≡ 0 * size = omega arith in ap (λ k. take k xs) same
first_pages-take size (suc n) xs =
    let last = page_end (suc n) size (omega arith) in
    let before : (suc n - 1) * size ≡ n * size = ap (λ k. k * size) (omega arith) in
    let width : suc n * size - (suc n - 1) * size ≡ size = omega (arith, last) in
    let whole : n * size + size ≡ suc n * size = omega (arith, last, before) in
    rw (width, before, first_pages-take size n xs)
      (take-add (n * size) size xs ∙ ap (λ k. take k xs) whole)

-- The last page reaches the end of the list, and the page before it does not.
total_pages_bounds :
    (count size : ℕ)
    → 1 ≤ size
    → (count ≤ total_pages count size * size) × (total_pages count size * size < count + size)
unfolding total_pages
total_pages_bounds count size h =
    omega
      (arith, lt-div-mul-add {a = count + (size - 1)} h, div-mul-le_self (count + (size - 1)) size)

total_pages-pos : (count size : ℕ) → 1 ≤ count → 1 ≤ size → 1 ≤ total_pages count size
unfolding total_pages
total_pages-pos count size full h = (le-div_iff_mul-le h).1 (omega arith)

-- The pages together are the whole list, in its order, each room once.
pub first_pages-total_pages {ℓ} :
    {A : Type ℓ} (size : ℕ) (xs : List A)
    → 1 ≤ size
    → first_pages size (total_pages (length xs) size) xs ≡ xs
first_pages-total_pages size xs h =
    first_pages-take size (total_pages (length xs) size) xs
    ∙ take_all _ xs (total_pages_bounds (length xs) size h).0

-- A longer list has no fewer pages.
total_pages_mono :
    (count later size : ℕ)
    → 1 ≤ size
    → count ≤ later
    → total_pages count size ≤ total_pages later size
unfolding total_pages
total_pages_mono count later size h more =
    (le-div_iff_mul-le h).1 (omega (arith, div-mul-le_self (count + (size - 1)) size))

-- The number of rooms that match, and the pages: the buttons, which are there for that number; another
-- search, filter or order, which may bring another number and goes to the first page; and the rooms that
-- are loaded again, no fewer than before.
pub data Step : ℕ × Paging → ℕ × Paging → Type 0 where
  pressed_previous : (count : ℕ) (p : Paging) → Step (count, p) (count, previous count p)
  pressed_next : (count : ℕ) (p : Paging) → Step (count, p) (count, next count p)
  pressed_page :
      (count i : ℕ) (p : Paging)
      → i < max 1 (total_pages count p.items_per_page)
      → Step (count, p) (count, go i p)
  chosen_size :
      (count n : ℕ) (p : Paging) → Any (λ m. m ≡ n) sizes → Step (count, p) (count, resize n p)
  filtered : (count later : ℕ) (p : Paging) → Step (count, p) (later, reset p)
  reloaded : (count later : ℕ) (p : Paging) → count ≤ later → Step (count, p) (later, p)

pub data Reach : ℕ × Paging → Type 0 where
  shown : (count : ℕ) → Reach (count, initial)
  step : {p q : ℕ × Paging} → Reach p → Step p q → Reach q

abbrev pub IsPage : ℕ → Paging → Type 0
IsPage count p =
    (1 ≤ p.items_per_page)
    × (1 ≤ p.current_page)
    × (p.current_page ≤ max 1 (total_pages count p.items_per_page))

Step-IsPage : {p q : ℕ × Paging} → Step p q → IsPage p.0 p.1 → IsPage q.0 q.1
unfolding previous next go resize reset
Step-IsPage (pressed_previous count p) h = ground arith
Step-IsPage (pressed_next count p) h = ground (arith, total_pages-pos count p.items_per_page)
Step-IsPage (pressed_page count i p b) h = ground arith
Step-IsPage (chosen_size count n p b) h = ground arith
Step-IsPage (filtered count later p) h = ground arith
Step-IsPage (reloaded count later p more) h =
    ground (arith, total_pages_mono count later p.items_per_page h.0 more)

Reach-place : {p : ℕ × Paging} → Reach p → IsPage p.0 p.1
Reach-place (shown count) = ground arith
Reach-place (step r s) = Step-IsPage s (Reach-place r)

pub Reach-IsPage : (count : ℕ) (p : Paging) → Reach (count, p) → IsPage count p
Reach-IsPage count p r = Reach-place r

-- Where they are fewer it need not be: of eleven rooms on pages of ten, one is deleted while the second
-- page is shown, which is then the second of one.
pub fewer_rooms :
    Reach (11, next 11 initial)
    × ((next 11 initial).current_page ≡ 2)
    × (total_pages 10 (next 11 initial).items_per_page ≡ 1)
unfolding next total_pages
fewer_rooms = (step (shown 11) (pressed_next 11 initial), refl, refl)

length-take {ℓ} : {A : Type ℓ} (n : ℕ) (xs : List A) → length (take n xs) ≡ min n (length xs)
length-take zero xs = ground arith
length-take (suc n) [] = ground arith
length-take (suc n) (x ∷ xs) = ground (arith, length-take n xs)

length-paginated {ℓ} :
    {A : Type ℓ} (p : Paging) (xs : List A)
    → 1 ≤ p.current_page
    → length (paginated p xs)
      ≡ min p.items_per_page (length xs - (p.current_page - 1) * p.items_per_page)
unfolding paginated
length-paginated p xs h = grind (
  arith,
  page_end p.current_page p.items_per_page h,
  length-take (p.current_page * p.items_per_page - (p.current_page - 1) * p.items_per_page)
      (drop ((p.current_page - 1) * p.items_per_page) xs),
  length-drop ((p.current_page - 1) * p.items_per_page) xs,
)

-- On a page that is reached by the buttons, of a list that is not empty, there is at least one
-- room, and the two numbers below the list are those of the first and of the last one shown.
pub shown_numbers {ℓ} :
    {A : Type ℓ} (p : Paging) (xs : List A)
    → Reach (length xs, p)
    → 1 ≤ length xs
    → (1 ≤ length (paginated p xs))
      × (first_shown p (length xs) ≡ (p.current_page - 1) * p.items_per_page + 1)
      × (last_shown p (length xs)
          ≡ (p.current_page - 1) * p.items_per_page + length (paginated p xs))
unfolding paginated first_shown last_shown
shown_numbers p xs r full =
    let (size, low, high) = Reach-IsPage (length xs) p r in
    let (reach, short) = total_pages_bounds (length xs) p.items_per_page size in
    let some_total = total_pages-pos (length xs) p.items_per_page full size in
    let one_of : p.current_page ≤ total_pages (length xs) p.items_per_page = ground arith in
    let whole = mul-le-mul_right p.items_per_page one_of in
    ground (arith, whole, page_end p.current_page p.items_per_page low, length-paginated p xs low)
