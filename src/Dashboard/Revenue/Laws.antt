-- ===== src/Dashboard/Revenue/Laws.antt =====
-- The revenue of the last months.
use lapor_kos.Prelude.{
  ℕ, zero, suc, ◌+◌, ◌-◌, ◌*◌, ◌/◌, ◌%◌, ◌≤◌, ◌<◌, ◌≡◌, refl, Bool, ◌&&◌, List, [], ◌∷◌, ◌==◌,
  arith, leb, ltb, eqb, filter, drop, map, All, if◌then◌else◌, ◌∙◌,
}
use lapor_kos.Dashboard.{Payment}
use lapor_kos.Dashboard.Revenue.{
  sum_from, is_paid_in, revenue_of, Month, past_month, empty_months, with_revenue,
  get_past_months_data, total_period_revenue, monthly_revenue, prev_month, prev_year,
  prev_month_revenue,
}

-- A sum without an accumulator.
abbrev pub sum {ℓ} : {A : Type ℓ} → (A → ℕ) → List A → ℕ
sum value [] = 0
sum value (x ∷ xs) = value x + sum value xs

pub sum_from-sum {ℓ} :
    {A : Type ℓ} (value : A → ℕ) (s : ℕ) (xs : List A) → sum_from value s xs ≡ s + sum value xs
sum_from-sum value s [] = omega arith
sum_from-sum value s (x ∷ xs) = omega (arith, sum_from-sum value (s + value x) xs)

-- The months counted through.
abbrev pub index_of : Payment → ℕ
index_of p = p.period_year * 12 + (p.period_month - 1)

abbrev pub IsMonth : Payment → Type 0
IsMonth p = (1 ≤ p.period_month) × (p.period_month ≤ 12)

-- A payment counts for the months from `now + 1 - period` up to `now`.
abbrev pub is_paid_within : ℕ → ℕ → Payment → Bool
is_paid_within now period p =
    p.status == "paid" && (leb (index_of p) now && ltb now (index_of p + period))

-- The amount of a payment, where it passes a test.
abbrev amount_if : Bool → ℕ → ℕ
amount_if b n = if b then n else 0

sum-filter :
    (q : Payment → Bool) (ps : List Payment)
    → sum (λ p. p.total_paid) (filter q ps) ≡ sum (λ p. amount_if (q p) p.total_paid) ps
sum-filter q [] = refl
sum-filter q (p ∷ ps) = ground (arith, sum-filter q ps)

-- A month of the year and the year, against the months counted through.
index-eqb :
    (month year t : ℕ)
    → 1 ≤ month
    → month ≤ 12
    → (eqb month (t % 12 + 1) && eqb year (t / 12)) ≡ eqb (year * 12 + (month - 1)) t
index-eqb month year t low high = ground arith

revenue_of-sum :
    (month year : ℕ) (ps : List Payment)
    → revenue_of month year ps ≡ sum (λ p. amount_if (is_paid_in month year p) p.total_paid) ps
unfolding revenue_of
revenue_of-sum month year ps = omega (
  arith,
  sum_from-sum (λ p. p.total_paid) 0 (filter (is_paid_in month year) ps),
  sum-filter (is_paid_in month year) ps,
)

-- What a list of payments pays in some months.
abbrev paid_in_months : List Month → List Payment → ℕ
paid_in_months ms ps = sum (λ m. revenue_of m.month m.year ps) ms

paid_in_months-[] : (ms : List Month) → paid_in_months ms [] ≡ 0
unfolding revenue_of
paid_in_months-[] [] = refl
paid_in_months-[] (m ∷ ms) = omega (arith, paid_in_months-[] ms)

paid_in_months-∷ :
    (ms : List Month) (p : Payment) (ps : List Payment)
    → paid_in_months ms (p ∷ ps)
      ≡ sum (λ m. amount_if (is_paid_in m.month m.year p) p.total_paid) ms + paid_in_months ms ps
paid_in_months-∷ [] p ps = refl
paid_in_months-∷ (m ∷ ms) p ps = omega (
  arith,
  paid_in_months-∷ ms p ps,
  revenue_of-sum m.month m.year (p ∷ ps),
  revenue_of-sum m.month m.year ps,
)

-- A payment is counted in one of the months, if in any.
counted_once :
    (year month period : ℕ) (p : Payment)
    → IsMonth p
    → period ≤ year * 12 + month + 1
    → sum
        (λ m. amount_if (is_paid_in m.month m.year p) p.total_paid)
        (empty_months year month period)
      ≡ amount_if (is_paid_within (year * 12 + month) period p) p.total_paid
counted_once year month zero p h enough = ground arith
counted_once year month (suc i) p h enough = ground (
  arith,
  counted_once year month i p h (omega arith),
  index-eqb p.period_month p.period_year (year * 12 + month - i) h.0 h.1,
)

paid_in_months-window :
    (year month period : ℕ) (ps : List Payment)
    → All IsMonth ps
    → period ≤ year * 12 + month + 1
    → paid_in_months (empty_months year month period) ps
      ≡ sum (λ p. amount_if (is_paid_within (year * 12 + month) period p) p.total_paid) ps
paid_in_months-window year month period [] h enough =
    paid_in_months-[] (empty_months year month period)
paid_in_months-window year month period (p ∷ ps) h enough = omega (
  arith,
  paid_in_months-∷ (empty_months year month period) p ps,
  counted_once year month period p h.0 enough,
  paid_in_months-window year month period ps h.1 enough,
)

revenues-sum :
    (ps : List Payment) (ms : List Month)
    → sum (λ m. m.revenue) (map (with_revenue ps) ms) ≡ paid_in_months ms ps
revenues-sum ps [] = refl
revenues-sum ps (m ∷ ms) = omega (arith, revenues-sum ps ms)

-- If the months of the payments are months of a year, and the period goes back no further than the
-- year 0, then the total of the chart is the amount of the paid payments of the period, each counted
-- once, whatever the turn of the year.
pub total_period_revenue-window :
    (year month period : ℕ) (ps : List Payment)
    → All IsMonth ps
    → period ≤ year * 12 + month + 1
    → total_period_revenue (get_past_months_data year month period ps)
      ≡ sum_from (λ p. p.total_paid) 0 (filter (is_paid_within (year * 12 + month) period) ps)
unfolding total_period_revenue get_past_months_data
total_period_revenue-window year month period ps h enough =
    let q = is_paid_within (year * 12 + month) period in
    omega (
      arith,
      sum_from-sum (λ m. m.revenue) 0 (map (with_revenue ps) (empty_months year month period)),
      revenues-sum ps (empty_months year month period),
      paid_in_months-window year month period ps h enough,
      sum_from-sum (λ p. p.total_paid) 0 (filter q ps),
      sum-filter q ps,
    )

past_month-prev :
    (year month : ℕ)
    → month < 12
    → 1 ≤ year
    → ((year * 12 + month - 1) % 12 + 1 ≡ prev_month (month + 1))
      × ((year * 12 + month - 1) / 12 ≡ prev_year (month + 1) year)
      × ((year * 12 + month - 0) % 12 + 1 ≡ month + 1)
      × ((year * 12 + month - 0) / 12 ≡ year)
past_month-prev year month h k = ground arith

drop-months :
    (year month i : ℕ) (ps : List Payment)
    → drop i (get_past_months_data year month (suc (suc i)) ps)
      ≡ map (with_revenue ps) (past_month year month 1 ∷ past_month year month 0 ∷ [])
unfolding get_past_months_data
drop-months year month zero ps = refl
drop-months year month (suc i) ps = drop-months year month i ps

-- The two last columns of a chart of two months or more are the month before and the month itself,
-- with the revenues that the growth is computed of.
pub last_columns :
    (year month i : ℕ) (ps : List Payment)
    → month < 12
    → 1 ≤ year
    → drop i (get_past_months_data year month (suc (suc i)) ps)
      ≡ record {
        month = prev_month (month + 1);
        year = prev_year (month + 1) year;
        revenue = prev_month_revenue year month ps;
      }
        ∷ record { month = month + 1; year = year; revenue = monthly_revenue year month ps }
        ∷ []
unfolding prev_month_revenue
last_columns year month i ps h k =
    let (m, y, m', y') = past_month-prev year month h k in
    drop-months year month i ps ∙ (rw (m, y, m', y') refl)
