-- ===== src/Phones/Laws.antt =====
-- The formatters of the pages agree, keep the digits, and change nothing of what they have formatted.
use lapor_kos.Prelude.{
  ℕ, suc, ◌+◌, ◌≤◌, ◌≡◌, refl, sym, ap, ◌∙◌, ◌⊎◌, inl, inr, true, false, [], ◌∷◌, ◌++◌, length,
  take, drop, All-take, All-drop, All-filter, take_all, length-take-le, arith, leb, ltb, Bool-cases,
  if◌then◌else◌,
}
use lapor_kos.Invitations.Chars.{Chars, is_digit, is_empty, is_prefix, same}
use lapor_kos.Invitations.Phone.{digits_of, six_two}
use lapor_kos.Invitations.Phone.Laws.{Digits, digits_of-groups, take-nil}
use lapor_kos.Phones.{
  plus_six_two, is_cleared, local_digits, layout, format_local, cleaned_digits, wizard_layout,
  format_phone_number,
}

same_eq : (s t : Chars) → same s t ≡ true → s ≡ t
same_eq [] [] h = refl
same_eq [] (b ∷ t) h = cc
same_eq (a ∷ s) [] h = cc
same_eq (a ∷ s) (b ∷ t) h = ground (arith, same_eq s t)

cleared_cases :
    (value : Chars)
    → is_cleared value ≡ true
    → (value ≡ []) ⊎ (value ≡ plus_six_two) ⊎ (value ≡ plus_six_two ++ b'-' ∷ [])
cleared_cases [] h = inl refl
cleared_cases (c ∷ s) h = elim (Bool-cases (same (c ∷ s) plus_six_two)) [
  | inl plain ↦ inr (inl (same_eq (c ∷ s) plus_six_two plain))
  | inr other ↦ inr (inr (same_eq (c ∷ s) (plus_six_two ++ b'-' ∷ []) (ground arith)))
]

cleared_layout :
    (last : ℕ) (value : Chars)
    → is_cleared value ≡ true
    → layout last (take (7 + last) (local_digits (digits_of value))) ≡ []
cleared_layout last value h = elim (cleared_cases value h) [
  | inl e ↦ rw e (ap (layout last) (take-nil (7 + last)))
  | inr (inl e) ↦ rw e (ap (layout last) (take-nil (7 + last)))
  | inr (inr e) ↦ rw e (ap (layout last) (take-nil (7 + last)))
]

-- The early return for a cleared field is what the rest would give.
pub format_local-layout :
    (last : ℕ) (value : Chars)
    → format_local last value ≡ layout last (take (7 + last) (local_digits (digits_of value)))
unfolding format_local
format_local-layout last value = elim (Bool-cases (is_cleared value)) [
  | inl yes' ↦ rw yes' (sym (cleared_layout last value yes'))
  | inr no' ↦ rw no' refl
]

pub local-Digits : (d : Chars) → Digits d → Digits (local_digits d)
local-Digits d h = elim (Bool-cases (is_prefix six_two d)) [
  | inl long ↦ rw long (All-drop _ 2 d h)
  | inr other ↦ elim (Bool-cases (is_prefix (b'0' ∷ []) d)) [
    | inl zeroed ↦ rw other (rw zeroed (All-drop _ 1 d h))
    | inr plain ↦ rw other (rw plain h)
  ]
]

-- The digits of what is shown.
digits_of-layout :
    (last : ℕ) (d : Chars)
    → Digits d
    → length d ≤ 7 + last
    → local_digits (digits_of (layout last d)) ≡ d
digits_of-layout last [] h k = refl
digits_of-layout last (c ∷ d) h k = digits_of-groups last (c ∷ d) h k

-- The local digits of a formatted number are those that were typed, as many as there is room for.
pub local_digits-format_local :
    (last : ℕ) (value : Chars)
    → local_digits (digits_of (format_local last value))
      ≡ take (7 + last) (local_digits (digits_of value))
local_digits-format_local last value =
    let typed = local_digits (digits_of value) in
    ap (λ s. local_digits (digits_of s)) (format_local-layout last value)
    ∙ digits_of-layout last (take (7 + last) typed)
        (All-take _ (7 + last) typed (local-Digits (digits_of value) (All-filter is_digit value)))
        (length-take-le (7 + last) typed)

-- What is formatted stays as it is when it is formatted again.
pub format_local-idempotent :
    (last : ℕ) (value : Chars)
    → format_local last (format_local last value) ≡ format_local last value
format_local-idempotent last value =
    let n = 7 + last in
    let typed = local_digits (digits_of value) in
    format_local-layout last (format_local last value)
    ∙ ap (λ d. layout last (take n d)) (local_digits-format_local last value)
    ∙ ap (layout last) (take_all n (take n typed) (length-take-le n typed))
    ∙ sym (format_local-layout last value)

cleaned_shape : (d : Chars) → is_empty d ≡ false → cleaned_digits d ≡ six_two ++ local_digits d
cleaned_shape [] h = cc
cleaned_shape (c ∷ []) h = ground arith
cleaned_shape (b ∷ c ∷ d) h = ground arith

wizard-local :
    (d : Chars)
    → (if leb (length (six_two ++ d)) 2
        then []
        else wizard_layout (drop 2 (take 14 (six_two ++ d))))
      ≡ layout 5 (take 12 d)
wizard-local [] = refl
wizard-local (c ∷ d) =
    let long : leb (length (six_two ++ c ∷ d)) 2 ≡ false = ground arith in
    let filled : ltb 0 (suc (length (take 11 d))) ≡ true = ground arith in rw long (rw filled refl)

wizard-layout :
    (d : Chars)
    → (if leb (length (cleaned_digits d)) 2
        then []
        else wizard_layout (drop 2 (take 14 (cleaned_digits d))))
      ≡ layout 5 (take 12 (local_digits d))
wizard-layout [] = refl
wizard-layout (c ∷ d) = rw (cleaned_shape (c ∷ d) refl) (wizard-local (local_digits (c ∷ d)))

-- The wizard shows of every text what the list of the rooms shows of it.
pub format_phone_number-local : (value : Chars) → format_phone_number value ≡ format_local 5 value
unfolding format_phone_number
format_phone_number-local value =
    wizard-layout (digits_of value) ∙ sym (format_local-layout 5 value)
