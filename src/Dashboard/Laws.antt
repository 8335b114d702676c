-- ===== src/Dashboard/Laws.antt =====
-- What is asked of the server, and whom the overview counts as tenants.
use lapor_kos.Prelude.{
  String, ◌≤◌, ◌≡◌, refl, Bool, false, not, ◌&&◌, List, [], ◌∷◌, arith, filter, length, map,
  includes, eq_iff, ◌==◌,
}
use lapor_kos.Dashboard.{
  Contract, DashboardRoom, Payment, Complaint, Dashboard, unique, staff_loaded,
}

abbrev pub IsUnique : List String → Type 0
IsUnique [] = Unit
IsUnique (x ∷ xs) = (includes xs x ≡ false) × IsUnique xs

pub includes-filter :
    (x y : String) (xs : List String)
    → includes (filter (λ z. not (z == x)) xs) y ≡ (includes xs y && not (y == x))
includes-filter x y [] = refl
includes-filter x y (z ∷ zs) =
    ground (arith, includes-filter x y zs, eq_iff z x, eq_iff z y, eq_iff y x)

remove-IsUnique :
    (x : String) (xs : List String) → IsUnique xs → IsUnique (filter (λ z. not (z == x)) xs)
remove-IsUnique x [] h = tt
remove-IsUnique x (y ∷ ys) h = ground (arith, remove-IsUnique x ys h.1, includes-filter x y ys)

includes-unique : (y : String) (xs : List String) → includes (unique xs) y ≡ includes xs y
unfolding unique
includes-unique y [] = refl
includes-unique y (x ∷ xs) =
    ground (arith, includes-filter x y (unique xs), includes-unique y xs, eq_iff y x, eq_iff x y)

length-filter-le {ℓ} : {A : Type ℓ} (q : A → Bool) (xs : List A) → length (filter q xs) ≤ length xs
length-filter-le q [] = omega arith
length-filter-le q (x ∷ xs) = ground (arith, length-filter-le q xs)

length-unique : (xs : List String) → length (unique xs) ≤ length xs
unfolding unique
length-unique [] = omega arith
length-unique (x ∷ xs) =
    omega (arith, length-unique xs, length-filter-le (λ y. not (y == x)) (unique xs))

unique-IsUnique : (xs : List String) → IsUnique (unique xs)
unfolding unique
unique-IsUnique [] = tt
unique-IsUnique (x ∷ xs) = (
  ground (arith, includes-filter x x (unique xs), eq_iff x x),
  remove-IsUnique x (unique xs) (unique-IsUnique xs),
)

length-map {ℓ} : {A : Type ℓ} (f : A → String) (xs : List A) → length (map f xs) ≡ length xs
length-map f [] = refl
length-map f (x ∷ xs) = omega (arith, length-map f xs)

-- The tenants that the overview counts are the users of the active contracts: each of them is there,
-- nobody else is, and nobody is counted twice, so that they are at most as many as those contracts.
pub staff_loaded-tenants :
    {P : Type 0} (rooms : List DashboardRoom) (contracts : List Contract) (payments : List Payment)
    (complaints : List Complaint) (d : Dashboard P)
    → let tenants = (staff_loaded rooms contracts payments complaints d).tenants in
      let active = filter (λ c. c.status == "active") contracts in
      IsUnique tenants
      × ((id : String) → includes tenants id ≡ includes (map (λ c. c.user_id) active) id)
      × (length tenants ≤ length active)
unfolding staff_loaded
staff_loaded-tenants rooms contracts payments complaints d =
    let active = filter (λ c. c.status == "active") contracts in
    let ids = map (λ c. c.user_id) active in
    (
      unique-IsUnique ids,
      λ id. includes-unique id ids,
      omega (arith, length-unique ids, length-map (λ c. c.user_id) active),
    )
