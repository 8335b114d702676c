-- ===== src/Prelude/Sort.antt =====
-- `Array.prototype.sort`, which keeps the order of elements that compare as equal, over the test
-- whether the first of two is put before the second or taken for equal to it.
use mathlib.Core.Path.{◌≡◌, refl}
use mathlib.Core.Logic.{◌⊎◌, inl, inr}
use mathlib.Core.Bool.{Bool, true}
use mathlib.Core.List.{List, [], ◌∷◌}
use mathlib.Core.List.Perm as Perm
use mathlib.Core.List.{Perm}
use native.Mathlib.Omega.{arith}
use lapor_kos.Prelude.Tests.{if◌then◌else◌, Bool-cases}
use lapor_kos.Prelude.Lists.{All, All-map, length, filter}

module _ {ℓ} {A : Type ℓ} (p : A → A → Bool) where
  abbrev pub insert : A → List A → List A
  insert x [] = x ∷ []
  insert x (y ∷ ys) = let rest = insert x ys in if p x y then x ∷ y ∷ ys else y ∷ rest

  abbrev pub sort : List A → List A
  sort [] = []
  sort (x ∷ xs) = insert x (sort xs)

  abbrev pub IsSorted : List A → Type ℓ
  IsSorted [] = Unit
  IsSorted (x ∷ xs) = All (λ y. p x y ≡ true) xs × IsSorted xs

  abbrev pub IsTotal : Type ℓ
  IsTotal = (a b : A) → (p a b ≡ true) ⊎ (p b a ≡ true)

  abbrev pub IsTransitive : Type ℓ
  IsTransitive = (a b c : A) → p a b ≡ true → p b c ≡ true → p a c ≡ true

  pub insert-Perm : (x : A) (xs : List A) → Perm (insert x xs) (x ∷ xs)
  insert-Perm x [] = Perm.rfl
  insert-Perm x (y ∷ ys) = elim (Bool-cases (p x y)) [
    | inl first ↦ rw first Perm.rfl
    | inr later ↦ rw later (Perm.trans (Perm.cons y (insert-Perm x ys)) (Perm.swap x y ys))
  ]

  pub sort-Perm : (xs : List A) → Perm (sort xs) xs
  sort-Perm [] = Perm.nil
  sort-Perm (x ∷ xs) = Perm.trans (insert-Perm x (sort xs)) (Perm.cons x (sort-Perm xs))

  module _ (total : IsTotal) (transitive : IsTransitive) where
    All-insert :
        (x y : A) (xs : List A)
        → p x y ≡ true
        → All (λ z. p x z ≡ true) xs
        → All (λ z. p x z ≡ true) (insert y xs)
    All-insert x y [] h a = (h, tt)
    All-insert x y (z ∷ zs) h a = ground (arith, All-insert x y zs h a.1)

    insert-IsSorted : (x : A) (xs : List A) → IsSorted xs → IsSorted (insert x xs)
    insert-IsSorted x [] h = (tt, tt)
    insert-IsSorted x (y ∷ ys) h = elim (Bool-cases (p x y)) [
      | inl first ↦ rw first ((first, All-map (λ z. transitive x y z first) ys h.0), h)
      | inr later ↦
          let turned : p y x ≡ true = ground (arith, total x y) in
          rw later (All-insert y x ys turned h.0, insert-IsSorted x ys h.1)
    ]

    pub sort-IsSorted : (xs : List A) → IsSorted (sort xs)
    sort-IsSorted [] = tt
    sort-IsSorted (x ∷ xs) = insert-IsSorted x (sort xs) (sort-IsSorted xs)

-- A sort changes no count.
module _ {ℓ} {A : Type ℓ} (p : A → A → Bool) (q : A → Bool) where
  length-filter-insert :
      (x : A) (xs : List A) → length (filter q (insert p x xs)) ≡ length (filter q (x ∷ xs))
  length-filter-insert x [] = refl
  length-filter-insert x (y ∷ ys) = ground (arith, length-filter-insert x ys)

  pub length-filter-sort : (xs : List A) → length (filter q (sort p xs)) ≡ length (filter q xs)
  length-filter-sort [] = refl
  length-filter-sort (x ∷ xs) =
      ground (arith, length-filter-insert x (sort p xs), length-filter-sort xs)
