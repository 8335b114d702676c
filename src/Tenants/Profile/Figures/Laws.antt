-- ===== src/Tenants/Profile/Figures/Laws.antt =====
-- The course of a contract, and what is owed.
use native.Mathlib.Nat.{le-div_iff_mul-le, div-mul-le_self}
use lapor_kos.Prelude.{
  ℕ, ◌+◌, ◌-◌, ◌*◌, ◌≤◌, ◌<◌, ◌≡◌, refl, true, some, List, [], ◌∷◌, arith, leb, ltb, inl, inr,
  Bool-cases, All, any, find, if◌then◌else◌,
}
use lapor_kos.Rooms.Pages.{min}
use lapor_kos.Dashboard.Revenue.{sum_from}
use lapor_kos.Tenants.Profile.{ProfilePayment, total_bill}
use lapor_kos.Tenants.Profile.Figures.{
  rounded_percent, progress, days_remaining, total_outstanding, total_billed, total_paid_sum,
  active_bill, is_unpaid, payment_status_label_card,
}

rounded_percent_mono : (a b c : ℕ) → a ≤ b → 0 < c → rounded_percent a c ≤ rounded_percent b c
rounded_percent_mono a b c h k =
    (le-div_iff_mul-le {k = 2 * c} {x = rounded_percent a c} {y = 200 * b + c} (omega arith)).1
      (omega (arith, div-mul-le_self (200 * a + c) (2 * c)))

rounded_percent_full : (a c : ℕ) → c ≤ a → 0 < c → 100 ≤ rounded_percent a c
rounded_percent_full a c h k =
    (le-div_iff_mul-le {k = 2 * c} {x = 100} {y = 200 * a + c} (omega arith)).1 (omega arith)

-- The percentage at an instant of a contract that ends after it starts.
percent_at : ℕ → ℕ → ℕ → ℕ
percent_at start end now =
    if leb now start then 0 else min 100 (rounded_percent (now - start) (end - start))

progress-percent_at :
    (start end now : ℕ) → start < end → progress start end now ≡ some (percent_at start end now)
unfolding progress percent_at
progress-percent_at start end now h =
    let proper : ltb start end ≡ true = ground arith in rw proper refl

percent_at_mono :
    (start end now later : ℕ)
    → start < end
    → now ≤ later
    → percent_at start end now ≤ percent_at start end later
unfolding percent_at
percent_at_mono start end now later h k =
    let grows =
      rounded_percent_mono (now - start) (later - start) (end - start) (omega arith)
        (omega arith) in
    ground (arith, grows)

percent_at-le : (start end now : ℕ) → percent_at start end now ≤ 100
unfolding percent_at
percent_at-le start end now = ground arith

percent_at_end : (start end k : ℕ) → start < end → percent_at start end (end + k) ≡ 100
unfolding percent_at
percent_at_end start end k h =
    let full = rounded_percent_full (end + k - start) (end - start) (omega arith) (omega arith) in
    ground (arith, full)

percent_at_start : (start end k : ℕ) → percent_at start end (start - k) ≡ 0
unfolding percent_at
percent_at_start start end k = ground arith

-- Of a contract that ends after it starts, the progress is a percentage that never falls and the
-- days that are left never rise; up to the start the progress is zero, and from the end on it is
-- one hundred with no day left.
pub contract_course :
    (start end now later : ℕ)
    → start < end
    → now ≤ later
    → (p : ℕ) × (q : ℕ) × (progress start end now ≡ some p)
      × (progress start end later ≡ some q)
      × (p ≤ q)
      × (q ≤ 100)
      × (days_remaining end later ≤ days_remaining end now)
      × (progress start end (start - now) ≡ some 0)
      × (progress start end (end + now) ≡ some 100)
      × (days_remaining end (end + now) ≡ 0)
unfolding days_remaining
contract_course start end now later h k = (
  percent_at start end now,
  percent_at start end later,
  progress-percent_at start end now h,
  progress-percent_at start end later h,
  percent_at_mono start end now later h k,
  percent_at-le start end later,
  omega arith,
  rw⁻¹ (percent_at_start start end now) (progress-percent_at start end (start - now) h),
  rw⁻¹ (percent_at_end start end now h) (progress-percent_at start end (end + now) h),
  omega arith,
)

-- What is owed of each bill by itself.
abbrev pub owed : ProfilePayment → ℕ
owed p = total_bill p - p.total_paid

abbrev IsNotOverpaid : ProfilePayment → Type 0
IsNotOverpaid p = p.total_paid ≤ total_bill p

owed_from :
    (bills paid each : ℕ) (payments : List ProfilePayment)
    → bills - paid ≤ each
    → sum_from total_bill bills payments - sum_from (λ p. p.total_paid) paid payments
      ≤ sum_from owed each payments
owed_from bills paid each [] h = h
owed_from bills paid each (p ∷ payments) h =
    owed_from (bills + total_bill p) (paid + p.total_paid) (each + owed p) payments (omega arith)

owed_from_exact :
    (bills paid each : ℕ) (payments : List ProfilePayment)
    → bills ≡ paid + each
    → All IsNotOverpaid payments
    → sum_from total_bill bills payments
      ≡ sum_from (λ p. p.total_paid) paid payments + sum_from owed each payments
owed_from_exact bills paid each [] h all = h
owed_from_exact bills paid each (p ∷ payments) h all =
    owed_from_exact (bills + total_bill p) (paid + p.total_paid) (each + owed p) payments
      (omega (arith, all.0)) all.1

-- What a tenant owes in all is never more than what is owed of the bills one by one.
pub total_outstanding-le :
    (payments : List ProfilePayment) → total_outstanding payments ≤ sum_from owed 0 payments
unfolding total_outstanding total_billed total_paid_sum
total_outstanding-le payments = owed_from 0 0 0 payments (omega arith)

-- Where no bill is overpaid it is exactly that.
pub total_outstanding_exact :
    (payments : List ProfilePayment)
    → All IsNotOverpaid payments
    → total_outstanding payments ≡ sum_from owed 0 payments
unfolding total_outstanding total_billed total_paid_sum
total_outstanding_exact payments h = omega (arith, owed_from_exact 0 0 0 payments (omega arith) h)

find-any :
    (payments : List ProfilePayment)
    → any is_unpaid payments ≡ true
    → (p : ProfilePayment) × (find is_unpaid payments ≡ some p) × (is_unpaid p ≡ true)
find-any [] h = cc
find-any (p ∷ payments) h = elim (Bool-cases (is_unpaid p)) [
  | inl open' ↦ (p, rw open' refl, open')
  | inr paid ↦ rw paid (find-any payments (ground arith))
]

-- Where a bill is not paid, the bill that is shown is one that is not, and the card says so.
pub active_bill_unpaid :
    (payments : List ProfilePayment)
    → any is_unpaid payments ≡ true
    → ((p : ProfilePayment) × (active_bill payments ≡ some p) × (is_unpaid p ≡ true))
      × (payment_status_label_card payments ≡ "Belum Lunas")
unfolding active_bill payment_status_label_card
active_bill_unpaid [] h = cc
active_bill_unpaid (p ∷ payments) h =
    let (bill, found, unpaid) = find-any (p ∷ payments) h in
    ((bill, rw (found, active_bill) refl, unpaid), rw h refl)
