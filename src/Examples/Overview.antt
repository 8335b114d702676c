-- ===== src/Examples/Overview.antt =====
-- The overview: frontend/src/app/(dashboard)/page.tsx.
use lapor_kos.Prelude.{
  ◌==◌, String, ℕ, ◌+◌, ◌*◌, ◌≤◌, ◌≡◌, refl, Bool, none, List, [], ◌∷◌, length, filter, includes,
  map, arith, pos, negsuc,
}
use lapor_kos.Dashboard.{Contract, Payment, Dashboard, staff_loaded}
use lapor_kos.Dashboard.Laws.{IsUnique, staff_loaded-tenants}
use lapor_kos.Dashboard.Revenue.{
  sum_from, revenue_of, get_past_months_data, total_period_revenue, revenue_growth,
}
use lapor_kos.Dashboard.Revenue.Laws.{is_paid_within, total_period_revenue-window}

abbrev payment : String → ℕ → ℕ → ℕ → Payment
payment status month year paid = record {
  status = status;
  period_month = month;
  period_year = year;
  total_paid = paid;
  amount_rent = paid;
  amount_electricity = 0;
  amount_water = 0;
  amount_other = 0;
  due_date = "";
}

abbrev payments : List Payment
payments =
    payment "paid" 12 2024 700
    ∷ payment "paid" 1 2025 900
    ∷ payment "unpaid" 1 2025 900
    ∷ payment "paid" 10 2024 500
    ∷ []

-- Three months up to January 2025.
months_test :
    map {B = ℕ × ℕ} (λ m. (m.month, m.revenue)) (get_past_months_data 2025 0 3 payments)
    ≡ (11, 0) ∷ (12, 700) ∷ (1, 900) ∷ []
unfolding get_past_months_data revenue_of
months_test = refl

growth_test :
    (revenue_growth 900 700 ≡ pos 29)
    × (revenue_growth 350 700 ≡ negsuc 49)
    × (revenue_growth 697 700 ≡ pos 0)
    × (revenue_growth 1 0 ≡ pos 0)
unfolding revenue_growth
growth_test = (refl, refl, refl, refl)

total_period_revenue-window_example :
    total_period_revenue (get_past_months_data 2025 0 3 payments)
    ≡ sum_from (λ p. p.total_paid) 0 (filter (is_paid_within (2025 * 12 + 0) 3) payments)
total_period_revenue-window_example =
    total_period_revenue-window 2025 0 3 payments
      (
        (omega arith, omega arith),
        (
          (omega arith, omega arith),
          ((omega arith, omega arith), ((omega arith, omega arith), tt)),
        ),
      )
      (omega arith)

abbrev contract : String → String → Contract
contract user status = record {
  user_id = user;
  room_id = "r";
  status = status;
  start_date = none;
  end_date = none;
  user = none;
}

abbrev contracts : List Contract
contracts = contract "ani" "active" ∷ contract "budi" "ended" ∷ contract "ani" "active" ∷ []

abbrev blank : Dashboard String
blank = record {
  tenant_profile = none;
  tenant_payments = [];
  rooms = [];
  tenants = [];
  contracts = [];
  payments = [];
  complaints = [];
  is_loading = Bool.true;
}

staff_loaded-tenants_example :
    let tenants = (staff_loaded [] contracts payments [] blank).tenants in
    let active = filter (λ c. c.status == "active") contracts in
    IsUnique tenants
    × ((id : String) → includes tenants id ≡ includes (map (λ c. c.user_id) active) id)
    × (length tenants ≤ length active)
staff_loaded-tenants_example = staff_loaded-tenants [] contracts payments [] blank
