-- ===== src/Tenants/Profile/Money/Laws.antt =====
-- What is typed as an amount is what is sent.
use Prim.Native.Char.{code}
use text.Mathlib.TextLemmas.{cons-append, nil-append}
use lapor_kos.Prelude.{
  String, ℕ, zero, suc, ◌+◌, ◌-◌, ◌*◌, ◌/◌, ◌%◌, ◌<◌, ◌≤◌, ◌≡◌, refl, ap, ◌∙◌, false, [], ◌∷◌, ◌++◌,
  ◌^^◌, show, arith, inl, inr, ltb, Bool-cases, All-append_iff, filter_of_All,
}
use lapor_kos.Prelude.Decimal.{digit, show_digits}
use lapor_kos.Invitations.Chars.{Chars, chars, is_digit, is_empty}
use lapor_kos.Invitations.Phone.Laws.{Digits}
use lapor_kos.Tenants.Profile.Money.{
  value_from, nan, infinity, finite, overflow, number_of, amount, shown_amount,
}

chars-append : (s t : String) → chars (s ^^ t) ≡ chars s ++ chars t
chars-append String.[] t = ap chars (nil-append t)
chars-append (String.◌∷◌ c s) t =
    ap chars (cons-append c s t) ∙ ap (λ r. code c ∷ r) (chars-append s t)

value_from-append : (n : ℕ) (d e : Chars) → value_from n (d ++ e) ≡ value_from (value_from n d) e
value_from-append n [] e = refl
value_from-append n (c ∷ d) e = value_from-append (n * 10 + (c - b'0')) d e

chars-digit : (d : ℕ) → d < 10 → chars (digit d) ≡ (b'0' + d) ∷ []
chars-digit zero h = refl
chars-digit (suc zero) h = refl
chars-digit (suc (suc zero)) h = refl
chars-digit (suc (suc (suc zero))) h = refl
chars-digit (suc (suc (suc (suc zero)))) h = refl
chars-digit (suc (suc (suc (suc (suc zero))))) h = refl
chars-digit (suc (suc (suc (suc (suc (suc zero)))))) h = refl
chars-digit (suc (suc (suc (suc (suc (suc (suc zero))))))) h = refl
chars-digit (suc (suc (suc (suc (suc (suc (suc (suc zero)))))))) h = refl
chars-digit (suc (suc (suc (suc (suc (suc (suc (suc (suc zero))))))))) h = refl
chars-digit (suc (suc (suc (suc (suc (suc (suc (suc (suc (suc d)))))))))) h = absurd (omega arith)

-- The least number that needs more digits.
abbrev pub tens : ℕ → ℕ
tens zero = 1
tens (suc k) = 10 * tens k

-- Digits that spell the number.
abbrev Spells : Chars → ℕ → Type 0
Spells d n = Digits d × (value_from 0 d ≡ n)

digit-Spells : (d : ℕ) → d < 10 → Spells (chars (digit d)) d
digit-Spells d h = rw (chars-digit d h) (ground arith)

value_from-digit : (n d : ℕ) → d < 10 → value_from n (chars (digit d)) ≡ n * 10 + d
value_from-digit n d h = rw (chars-digit d h) (omega arith)

show_digits-Spells : (k n : ℕ) → n < tens k → Spells (chars (show_digits k n)) n
unfolding show_digits
show_digits-Spells zero n h = (tt, omega arith)
show_digits-Spells (suc k) n h = elim (Bool-cases (ltb n 10)) [
  | inl small ↦ rw small (digit-Spells n (ground arith))
  | inr large ↦
      let front = show_digits-Spells k (n / 10) (omega arith) in
      let last = digit-Spells (n % 10) (omega arith) in
      rw large (
        rw (chars-append (show_digits k (n / 10)) (digit (n % 10))) (
          (All-append_iff _ (chars (show_digits k (n / 10))) (chars (digit (n % 10)))).1
              (front.0, last.0),
          value_from-append 0 (chars (show_digits k (n / 10))) (chars (digit (n % 10)))
              ∙ ap (λ m. value_from m (chars (digit (n % 10)))) front.1
              ∙ value_from-digit (n / 10) (n % 10) (omega arith)
              ∙ omega arith,
        ))
]

is_empty-snoc : (d : Chars) (c : ℕ) → is_empty (d ++ c ∷ []) ≡ false
is_empty-snoc [] c = refl
is_empty-snoc (b ∷ d) c = refl

show_digits-filled : (k n : ℕ) → is_empty (chars (show_digits (suc k) n)) ≡ false
unfolding show_digits
show_digits-filled k n = elim (Bool-cases (ltb n 10)) [
  | inl small ↦ rw small (rw (chars-digit n (ground arith)) refl)
  | inr large ↦ rw large (
      rw (chars-append (show_digits k (n / 10)) (digit (n % 10))) (
        rw (chars-digit (n % 10) (omega arith)) (is_empty-snoc (chars (show_digits k (n / 10))) _)))
]

-- A number below the overflow is one.
number_of-finite : (n : ℕ) → n < overflow → number_of n ≡ finite n
number_of-finite n h = ground arith

-- Digits with room for a number below the overflow are read back as the number.
pub amount-show_digits :
    (k n : ℕ) → n < tens (suc k) → n < overflow → amount (chars (show_digits (suc k) n)) ≡ finite n
unfolding amount
amount-show_digits k n h below =
    let (digits, spelled) = show_digits-Spells (suc k) n h in
    rw (filter_of_All is_digit (chars (show_digits (suc k) n)) digits)
      (rw (show_digits-filled k n) (ap number_of spelled ∙ number_of-finite n below))

tens-overflow : tens 21 ≤ overflow
unfolding overflow
tens-overflow = omega arith

-- A number that the page writes itself, with fewer than 22 digits, is read back.
pub amount-show : (n : ℕ) → n < tens 21 → amount (chars (show n)) ≡ finite n
unfolding show
amount-show n h = amount-show_digits 20 n h (omega (arith, tens-overflow))

pub lt-tens : (n : ℕ) → n < tens n
lt-tens zero = omega arith
lt-tens (suc n) = omega (arith, lt-tens n)

-- What is shown of Infinity has no digits, and is read as no number.
pub amount-infinity : (to_locale : ℕ → String) → amount (shown_amount to_locale infinity) ≡ nan
unfolding amount
amount-infinity to_locale = refl
