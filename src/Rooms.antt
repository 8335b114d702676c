-- ===== src/Rooms.antt =====
-- frontend/src/app/(dashboard)/rooms/page.tsx: the rooms, their numbers, and the list that is shown.
-- The tenant of a room, its description and the dialogs are left out.
pub mod Pages
pub mod Csv
pub mod Shown
pub mod Stats
pub mod Wizard
pub mod Dialog
pub mod Assignment
use lapor_kos.Prelude.{String, ℕ, Option}

pub record Room : Type 0 where
  pub id : String
  pub room_number : String
  pub price_per_month : ℕ
  pub status : String
  pub type : Option String
  pub floor : Option String
