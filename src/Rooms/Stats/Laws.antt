-- ===== src/Rooms/Stats/Laws.antt =====
-- How the numbers above the list hang together.
use native.Mathlib.Nat.{div-lt_iff_lt-mul, lt-div-mul-add, mul-div-le, mul_comm}
use lapor_kos.Prelude.{
  String, ℕ, ◌+◌, zero, suc, ◌*◌, ◌≤◌, ◌<◌, ◌≢◌, List, [], ◌∷◌, arith, eq_iff, filter, length,
}
use lapor_kos.Rooms.{Room}
use lapor_kos.Rooms.Stats.{has_status, percent, rate, stats}

apart : ◌≢◌ {A = String} "occupied" "available"
apart = ground (arith, eq_iff "occupied" "available")

occupied-available-le :
    (rooms : List Room)
    → length (filter (has_status "occupied") rooms) + length (filter (has_status "available") rooms)
      ≤ length rooms
occupied-available-le [] = ground arith
occupied-available-le (r ∷ rooms) = ground (
  arith,
  occupied-available-le rooms,
  eq_iff r.status "occupied",
  eq_iff r.status "available",
  apart,
)

rate_bounds :
    (occupied total : ℕ)
    → occupied ≤ total
    → (rate occupied total ≤ 100)
      × (2 * total * rate occupied total ≤ 200 * occupied + total)
      × (200 * occupied ≤ 2 * total * rate occupied total + total)
rate_bounds occupied zero h = ground arith
rate_bounds occupied (suc n) h =
    let below : percent occupied (suc n) < 101 =
      (div-lt_iff_lt-mul {k = 2 * suc n} {x = 200 * occupied + suc n} {y = 101} (omega arith)).1
        (omega arith) in
    grind (
      arith,
      below,
      lt-div-mul-add {a = 200 * occupied + suc n} {b = 2 * suc n} (omega arith),
      mul-div-le (200 * occupied + suc n) (2 * suc n),
      mul_comm (2 * suc n) (percent occupied (suc n)),
    )

-- No room is counted twice, so that the rooms in neither state make up the rest; the rate is within
-- half a percent of the occupied share, and at most one hundred.
pub stats_bounds :
    (rooms : List Room)
    → let s = stats rooms in
      (s.occupied + s.available ≤ s.total)
      × (s.occupancy_rate ≤ 100)
      × (2 * s.total * s.occupancy_rate ≤ 200 * s.occupied + s.total)
      × (200 * s.occupied ≤ 2 * s.total * s.occupancy_rate + s.total)
unfolding stats
stats_bounds rooms =
    let both = occupied-available-le rooms in
    let (most, low, high) =
      rate_bounds (length (filter (has_status "occupied") rooms)) (length rooms) (omega arith) in
    (both, most, low, high)
