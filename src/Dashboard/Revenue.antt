-- ===== src/Dashboard/Revenue.antt =====
-- frontend/src/app/(dashboard)/page.tsx: the revenue of a month, of the last months, and its growth.
-- The month of `Date` is counted from 0, that of a payment from 1.
pub mod Laws
use lapor_kos.Prelude.{
  String, ℕ, zero, suc, ◌+◌, ◌-◌, ◌*◌, ◌/◌, ◌%◌, Bool, ◌&&◌, List, [], ◌∷◌, ◌==◌, ◌^^◌, eqb, leb,
  ltb, filter, length, map, show, ℤ, pos, negsuc, neg, is_nonnegative, if◌then◌else◌,
}
use lapor_kos.Dashboard.{Payment}

-- `xs.reduce((sum, x) => sum + value(x), 0)`
abbrev pub sum_from {ℓ} : {A : Type ℓ} → (A → ℕ) → ℕ → List A → ℕ
sum_from value sum [] = sum
sum_from value sum (x ∷ xs) = sum_from value (sum + value x) xs

abbrev pub is_paid_in : ℕ → ℕ → Payment → Bool
is_paid_in month year p = p.status == "paid" && eqb p.period_month month && eqb p.period_year year

-- The paid amount of a month.
unfoldable pub revenue_of : ℕ → ℕ → List Payment → ℕ
revenue_of month year payments =
    sum_from (λ p. p.total_paid) 0 (filter (is_paid_in month year) payments)

pub record Month : Type 0 where
  pub month : ℕ
  pub year : ℕ
  pub revenue : ℕ

-- `new Date(year, month - i, 1)`, which carries a month before January over to the years.
abbrev pub past_month : ℕ → ℕ → ℕ → Month
past_month year month i =
    let index = year * 12 + month - i in
    record { month = index % 12 + 1; year = index / 12; revenue = 0 }

-- The loop from `period - 1` down to 0.
abbrev pub empty_months : ℕ → ℕ → ℕ → List Month
empty_months year month zero = []
empty_months year month (suc i) = past_month year month i ∷ empty_months year month i

abbrev pub with_revenue : List Payment → Month → Month
with_revenue payments m = record m { revenue = revenue_of m.month m.year payments }

unfoldable pub get_past_months_data : ℕ → ℕ → ℕ → List Payment → List Month
get_past_months_data year month period payments =
    map (with_revenue payments) (empty_months year month period)

unfoldable pub total_period_revenue : List Month → ℕ
total_period_revenue last_months = sum_from (λ m. m.revenue) 0 last_months

-- `Math.max(...revenues, 1000000)`
abbrev pub max_revenue : List Month → ℕ
max_revenue [] = 1000000
max_revenue (m ∷ ms) = let rest = max_revenue ms in if leb m.revenue rest then rest else m.revenue

-- `monthlyRevenue`
abbrev pub monthly_revenue : ℕ → ℕ → List Payment → ℕ
monthly_revenue year month payments = revenue_of (month + 1) year payments

abbrev pub is_billed_in : ℕ → ℕ → Payment → Bool
is_billed_in month year p = eqb p.period_month month && eqb p.period_year year

-- `totalBilled`
unfoldable pub total_billed : ℕ → ℕ → List Payment → ℕ
total_billed year month payments =
    sum_from (λ p. p.amount_rent + p.amount_electricity + p.amount_water + p.amount_other) 0
      (filter (is_billed_in (month + 1) year) payments)

-- `prevMonth`, `prevYear`, where `current_month` is counted from 1.
abbrev pub prev_month : ℕ → ℕ
prev_month current_month = if eqb current_month 1 then 12 else current_month - 1

abbrev pub prev_year : ℕ → ℕ → ℕ
prev_year current_month current_year =
    if eqb current_month 1 then current_year - 1 else current_year

unfoldable pub prev_month_revenue : ℕ → ℕ → List Payment → ℕ
prev_month_revenue year month payments =
    revenue_of (prev_month (month + 1)) (prev_year (month + 1) year) payments

-- `Math.round(((now - before) / before) * 100)`, without the error of the floating point: half a
-- percent is rounded up, also below 0.
abbrev pub growth_percent : ℕ → ℕ → ℤ
growth_percent now before =
    if leb before now
    then pos ((200 * (now - before) + before) / (2 * before))
    else if leb (200 * (before - now)) before
    then pos ((before - 200 * (before - now)) / (2 * before))
    else neg ((200 * (before - now) - before + (2 * before - 1)) / (2 * before))

unfoldable pub revenue_growth : ℕ → ℕ → ℤ
revenue_growth monthly prev = if ltb 0 prev then growth_percent monthly prev else pos 0

abbrev pub show_int : ℤ → String
show_int (pos n) = show n
show_int (negsuc n) = "-" ^^ show (n + 1)

-- `revenueSub`
unfoldable pub revenue_sub : ℕ → ℕ → ℕ → ℤ → ℕ → String
revenue_sub total_billed collection_percent prev growth paid_count =
    if ltb 0 total_billed
    then "Terkumpul " ^^ show collection_percent ^^ "% dari tagihan bulan ini"
    else if ltb 0 prev
    then (if is_nonnegative growth then "+" else "") ^^ show_int growth ^^ "% dari bulan lalu"
    else show paid_count ^^ " pembayaran lunas bulan ini"
