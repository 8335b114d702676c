-- ===== src/Tenants/Profile/Figures.antt =====
-- frontend/src/app/(dashboard)/tenants/[id]/page.tsx: the figures of a tenant's contract and
-- payments. An instant is in milliseconds since 1970; `time` is the platform's reading of a date,
-- with `none` for a date that is not valid. Quotients are exact, where the source's are rounded.
pub mod Laws
use lapor_kos.Prelude.{
  String, ℕ, ◌+◌, ◌-◌, ◌*◌, ◌/◌, Bool, true, false, not, ◌&&◌, Option, none, some, List, [], ◌∷◌,
  ◌==◌, ◌^^◌, any, find, leb, ltb, eqb, show, switch, optional, ℤ, pos, neg, truthy, get_or,
  if◌then◌else◌,
}
use lapor_kos.Rooms.Pages.{min}
use lapor_kos.Dashboard.Revenue.{sum_from}
use lapor_kos.Tenants.Profile.{ProfileContract, ProfilePayment, total_bill}

abbrev pub day : ℕ
day = 86400000

-- `Math.round(a / b * 100)` of what is not negative, for a positive `b`.
abbrev pub rounded_percent : ℕ → ℕ → ℕ
rounded_percent a b = (200 * a + b) / (2 * b)

-- `Math.min(100, Math.max(0, Math.round(elapsed / totalDuration * 100)))`, with the signs of the two
-- differences apart; `none` is `NaN`.
unfoldable pub progress : ℕ → ℕ → ℕ → Option ℕ
progress start end now =
    if ltb start end
    then some (if leb now start then 0 else min 100 (rounded_percent (now - start) (end - start)))
    else if ltb end start
    then some (if leb start now then 0 else min 100 (rounded_percent (start - now) (start - end)))
    else if ltb start now
    then some 100
    else if ltb now start
    then some 0
    else none

-- `Math.ceil(n / day)`
abbrev pub days_up : ℕ → ℕ
days_up n = (n + (day - 1)) / day

unfoldable pub days_remaining : ℕ → ℕ → ℕ
days_remaining end now = days_up (end - now)

-- `Math.ceil((end - start) / day)`, below zero where the end comes first.
unfoldable pub total_days : ℕ → ℕ → ℤ
total_days start end =
    if leb start end then pos (days_up (end - start)) else neg ((start - end) / day)

pub record Figures : Type 0 where
  pub progress_percent : Option ℕ
  pub days_left : ℕ
  pub days_in_all : ℤ

-- `start && end`: neither is missing, `NaN` or the first instant of 1970.
abbrev pub instant_of : (String → Option ℕ) → Option String → ℕ
instant_of time date = if truthy date then get_or (time (get_or date "")) 0 else 0

unfoldable pub contract_figures : (String → Option ℕ) → ℕ → Option ProfileContract → Figures
contract_figures time now contract =
    let start = instant_of time (optional (λ c. c.start_date) contract) in
    let end = instant_of time (optional (λ c. c.end_date) contract) in
    if not (eqb start 0) && not (eqb end 0)
    then record {
      progress_percent = progress start end now;
      days_left = days_remaining end now;
      days_in_all = total_days start end;
    }
    else record { progress_percent = some 0; days_left = 0; days_in_all = pos 0 }

-- `isContractActive`, for the instant of the end.
abbrev pub is_contract_active : Option ℕ → ℕ → Option ProfileContract → Bool
is_contract_active end now none = false
is_contract_active none now (some c) = false
is_contract_active (some end) now (some c) = leb now end && c.status == "active"

unfoldable pub contract_status : Option ℕ → ℕ → Option ProfileContract → String
contract_status end now none = "Tidak Ada Kontrak"
contract_status end now (some c) =
    if is_contract_active end now (some c) then "Aktif" else "Kontrak Habis"

unfoldable pub total_paid_sum : List ProfilePayment → ℕ
total_paid_sum payments = sum_from (λ p. p.total_paid) 0 payments

unfoldable pub total_billed : List ProfilePayment → ℕ
total_billed payments = sum_from total_bill 0 payments

unfoldable pub total_outstanding : List ProfilePayment → ℕ
total_outstanding payments = total_billed payments - total_paid_sum payments

abbrev pub is_unpaid : ProfilePayment → Bool
is_unpaid p = not (p.status == "paid")

-- `payments[0] || null`
abbrev pub latest_payment : List ProfilePayment → Option ProfilePayment
latest_payment [] = none
latest_payment (p ∷ payments) = some p

unfoldable pub active_bill : List ProfilePayment → Option ProfilePayment
active_bill payments = elim (find is_unpaid payments) [
  | none ↦ latest_payment payments
  | some p ↦ some p
]

unfoldable pub payment_status_label_card : List ProfilePayment → String
payment_status_label_card [] = "Belum Lunas"
payment_status_label_card (p ∷ payments) =
    if any is_unpaid (p ∷ payments) then "Belum Lunas" else "Lunas"

unfoldable pub active_bill_status_label : List ProfilePayment → String
active_bill_status_label payments = elim (active_bill payments) [
  | none ↦ "-"
  | some p ↦
      switch p.status (("paid", "Lunas") ∷ ("pending", "Menunggu") ∷ ("partial", "Sebagian") ∷ [])
        "Belum Bayar"
]

unfoldable pub payment_status_label : List ProfilePayment → String
payment_status_label [] = "Lunas"
payment_status_label (p ∷ payments) =
    switch p.status
      (("paid", "Lunas")
        ∷ ("pending", "Menunggu Verifikasi")
        ∷ ("partial", "Bayar Sebagian")
        ∷ ("overdue", "Terlambat")
        ∷ [])
      "Belum Bayar"

unfoldable pub payment_status_desc : List ProfilePayment → String
payment_status_desc [] = "Belum ada tagihan"
payment_status_desc (p ∷ payments) = "Bulan " ^^ show p.period_month ^^ " - " ^^ show p.period_year
