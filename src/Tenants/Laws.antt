-- ===== src/Tenants/Laws.antt =====
-- What the days that are left of a contract tell of its dates.
use lapor_kos.Prelude.{ℕ, ◌+◌, ◌*◌, ◌≤◌, ◌<◌, ◌≡◌, ◌↔◌, true, some, arith}
use lapor_kos.Tenants.{day, days_between, has_days, is_over, is_within}

-- A contract is over once its last instant is a day or more behind the midnight, and expires soon
-- up to thirty days after it.
pub days_between_iff :
    (today end : ℕ)
    → let days = some (days_between today end) in
      ((has_days days ≡ true) ↔ (today < end + day))
      × ((is_over days ≡ true) ↔ (end + day ≤ today))
      × ((is_within 30 days ≡ true) ↔ (end ≤ today + 30 * day))
unfolding days_between
days_between_iff today end = ground arith
