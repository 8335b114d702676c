-- ===== src/Invitations/Phone/Laws.antt =====
-- The formatted phone number holds the digits that were meant, and is a fixed point.
use mathlib.Core.Path.{◌≡⟨◌⟩◌, ◌∎, ap₂}
use lapor_kos.Prelude.{
  ℕ, zero, suc, ◌+◌, ◌≤◌, ◌≡◌, refl, sym, ap, ◌∙◌, ◌⊎◌, inl, inr, Bool, true, false, [], ◌∷◌, ◌++◌,
  length, take, drop, filter-append, filter_of_All, All-filter, All, All-take, All-drop,
  take-append-drop, take_all, drop_all, length-take-le, length-drop, arith, leb, ltb, Bool-cases,
}
use lapor_kos.Invitations.Chars.{Chars, is_digit, is_empty, is_prefix}
use lapor_kos.Invitations.Phone.{
  digits_of, six_two, without_zero, with_country, normal_digits, dash_if, groups, layout,
  format_indonesian_phone,
}

abbrev pub Digits : Chars → Type 0
Digits = All (λ c. is_digit c ≡ true)

-- Empty, or with the country code in front.
abbrev IsNormal : Chars → Type 0
IsNormal d =
    (d ≡ []) ⊎ ((rest : Chars) × (d ≡ b'6' ∷ b'2' ∷ rest) × Digits rest × (length rest ≤ 12))

abbrev HasCountry : Chars → Type 0
HasCountry d = (d ≡ []) ⊎ ((rest : Chars) × (d ≡ b'6' ∷ b'2' ∷ rest) × Digits rest)

prefix_rest :
    (d : Chars)
    → Digits d
    → is_prefix six_two d ≡ true
    → (rest : Chars) × (d ≡ b'6' ∷ b'2' ∷ rest) × Digits rest
prefix_rest [] h k = cc
prefix_rest (a ∷ []) h k = absurd (ground arith)
prefix_rest (a ∷ b ∷ rest) h k = (rest, ground arith, h.1.1)

with_country-HasCountry : (d : Chars) → Digits d → HasCountry (with_country d)
with_country-HasCountry [] h = inl refl
with_country-HasCountry (c ∷ d) h = elim (Bool-cases (is_prefix six_two (c ∷ d))) [
  | inl pre ↦ rw pre (inr (prefix_rest (c ∷ d) h pre))
  | inr other ↦ rw other (inr (c ∷ d, refl, h))
]

without_zero-Digits : (d : Chars) → Digits d → Digits (without_zero d)
without_zero-Digits [] h = tt
without_zero-Digits (c ∷ d) h = ground arith

take-IsNormal : (d : Chars) → HasCountry d → IsNormal (take 14 d)
take-IsNormal d (inl e) = rw e (inl refl)
take-IsNormal d (inr (rest, e, h)) =
    rw e (
      inr (take 12 rest, refl, All-take (λ c. is_digit c ≡ true) 12 rest h, length-take-le 12 rest))

normal_digits-IsNormal : (d : Chars) → Digits d → IsNormal (normal_digits d)
unfolding normal_digits
normal_digits-IsNormal d h =
    take-IsNormal (with_country (without_zero d))
      (with_country-HasCountry (without_zero d) (without_zero-Digits d h))

normal_digits_of_IsNormal : (d : Chars) → IsNormal d → normal_digits d ≡ d
unfolding normal_digits
normal_digits_of_IsNormal d (inl e) = rw e refl
normal_digits_of_IsNormal d (inr (rest, e, h, k)) =
    rw e (ap (λ t. b'6' ∷ b'2' ∷ t) (take_all 12 rest k))

digits_of-dash_if :
    (b : Bool) (part : Chars)
    → Digits part
    → (b ≡ false → part ≡ [])
    → digits_of (dash_if b part) ≡ part
digits_of-dash_if true part h k = filter_of_All is_digit part h
digits_of-dash_if false part h k = sym (k refl)

pub take-nil : (k : ℕ) → take {A = ℕ} k [] ≡ []
take-nil zero = refl
take-nil (suc k) = refl

slice_empty : (n k : ℕ) (s : Chars) → ltb n (length s) ≡ false → take k (drop n s) ≡ []
slice_empty n k s h = rw (drop_all n s (ground arith)) (take-nil k)

drop_seven : (s : Chars) → drop 7 s ≡ drop 4 (drop 3 s)
drop_seven [] = refl
drop_seven (a ∷ []) = refl
drop_seven (a ∷ b ∷ []) = refl
drop_seven (a ∷ b ∷ c ∷ s) = refl

pub digits_of-groups :
    (last : ℕ) (rest : Chars)
    → Digits rest
    → length rest ≤ 7 + last
    → digits_of (groups last rest) ≡ rest
digits_of-groups last rest h k =
    let first = filter_of_All is_digit (take 3 rest) (All-take _ 3 rest h) in
    let second : Digits (take 4 (drop 3 rest)) = All-take _ 4 (drop 3 rest) (All-drop _ 3 rest h) in
    let third : Digits (take last (drop 7 rest)) =
      All-take _ last (drop 7 rest) (All-drop _ 7 rest h) in
    let third_all : take last (drop 7 rest) ≡ drop 4 (drop 3 rest) =
      take_all last (drop 7 rest) (omega (arith, length-drop 7 rest)) ∙ drop_seven rest in
    digits_of (groups last rest)
    ≡⟨ filter-append is_digit (take 3 rest) _ ⟩
      digits_of (take 3 rest)
      ++ digits_of (
          dash_if (ltb 3 (length rest)) (take 4 (drop 3 rest))
          ++ dash_if (ltb 7 (length rest)) (take last (drop 7 rest)))
    ≡⟨ ap₂ ◌++◌ first (
        filter-append is_digit (dash_if (ltb 3 (length rest)) (take 4 (drop 3 rest)))
          (dash_if (ltb 7 (length rest)) (take last (drop 7 rest)))
        ∙ ap₂ ◌++◌ (digits_of-dash_if (ltb 3 (length rest)) _ second (slice_empty 3 4 rest))
            (digits_of-dash_if (ltb 7 (length rest)) _ third (slice_empty 7 last rest))) ⟩
      take 3 rest ++ (take 4 (drop 3 rest) ++ take last (drop 7 rest))
    ≡⟨ ap (λ t. take 3 rest ++ (take 4 (drop 3 rest) ++ t)) third_all
      ∙ ap (λ t. take 3 rest ++ t) (take-append-drop 4 (drop 3 rest))
      ∙ take-append-drop 3 rest ⟩
      rest ∎

digits_of-layout_country :
    (r : Chars) → Digits r → length r ≤ 12 → digits_of (layout (b'6' ∷ b'2' ∷ r)) ≡ b'6' ∷ b'2' ∷ r
digits_of-layout_country [] h k = refl
digits_of-layout_country (c ∷ r) h k =
    let long : leb (length (b'6' ∷ b'2' ∷ c ∷ r)) 2 ≡ false = ground arith in
    rw long (ap (λ t. b'6' ∷ b'2' ∷ t) (digits_of-groups 5 (c ∷ r) h k))

digits_of-layout : (d : Chars) → IsNormal d → digits_of (layout d) ≡ d
digits_of-layout d (inl e) = rw e refl
digits_of-layout d (inr (rest, e, h, k)) = rw e (digits_of-layout_country rest h k)

layout_plus : (d : Chars) → is_empty d ≡ false → (s : Chars) × (layout d ≡ b'+' ∷ s)
layout_plus d h = elim (Bool-cases (leb (length d) 2)) [
  | inl short ↦ (six_two, rw (short, h))
  | inr long ↦ (b'6' ∷ b'2' ∷ b' ' ∷ groups 5 (drop 2 d), rw long)
]

-- The formatted text is empty or begins with a plus; in that case the digits begin with the country
-- code, and there are at most fourteen.
pub format_shape :
    (value : Chars)
    → let d = normal_digits (digits_of value) in
      ((d ≡ []) × (format_indonesian_phone value ≡ []))
      ⊎ ((s : Chars) × (format_indonesian_phone value ≡ b'+' ∷ s)
          × (is_prefix six_two d ≡ true)
          × (length d ≤ 14))
unfolding format_indonesian_phone
format_shape value = elim (normal_digits-IsNormal (digits_of value) (All-filter is_digit value)) [
  | inl e ↦ inl (e, rw e refl)
  | inr (rest, e, h, k) ↦
      let (s, f) = layout_plus (normal_digits (digits_of value)) (rw e refl) in
      inr (s, f, rw e refl, rw e (omega arith))
]

-- The digits of the formatted number are the normal digits of what was typed: no digit is lost
-- or added by the spaces and dashes.
pub digits_of-format :
    (value : Chars) → digits_of (format_indonesian_phone value) ≡ normal_digits (digits_of value)
unfolding format_indonesian_phone
digits_of-format value =
    digits_of-layout (normal_digits (digits_of value))
      (normal_digits-IsNormal (digits_of value) (All-filter is_digit value))

-- Formatting a formatted number changes nothing, whatever was typed first.
pub format_idempotent :
    (value : Chars)
    → format_indonesian_phone (format_indonesian_phone value) ≡ format_indonesian_phone value
unfolding format_indonesian_phone
format_idempotent value = ap layout (
    ap normal_digits (digits_of-format value)
    ∙ normal_digits_of_IsNormal _
        (normal_digits-IsNormal (digits_of value) (All-filter is_digit value)))
