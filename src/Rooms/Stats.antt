-- ===== src/Rooms/Stats.antt =====
-- frontend/src/app/(dashboard)/rooms/page.tsx: the numbers above the list.
pub mod Laws
use lapor_kos.Prelude.{
  String, ℕ, ◌+◌, ◌*◌, ◌/◌, Bool, List, ◌==◌, filter, length, ltb, if◌then◌else◌,
}
use lapor_kos.Rooms.{Room}

pub record Stats : Type 0 where
  pub total : ℕ
  pub occupied : ℕ
  pub available : ℕ
  pub occupancy_rate : ℕ

abbrev pub has_status : String → Room → Bool
has_status status r = r.status == status

-- `Math.round((occupied / total) * 100)`, without the error of the floating point: half a percent is
-- rounded up.
abbrev pub percent : ℕ → ℕ → ℕ
percent occupied total = (200 * occupied + total) / (2 * total)

-- `occupancyRate`
abbrev pub rate : ℕ → ℕ → ℕ
rate occupied total = if ltb 0 total then percent occupied total else 0

unfoldable pub stats : List Room → Stats
stats rooms =
    let total = length rooms in
    let occupied = length (filter (has_status "occupied") rooms) in
    record {
      total = total;
      occupied = occupied;
      available = length (filter (has_status "available") rooms);
      occupancy_rate = rate occupied total;
    }
