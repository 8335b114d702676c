-- ===== src/Tenants/Profile.antt =====
-- frontend/src/app/(dashboard)/tenants/[id]/page.tsx: the page of a tenant, and what it keeps of the
-- tenant and the payments. The children hold the amounts of the forms, the figures and activities
-- that are shown, and what is loaded and sent. The markup, the icons and the colours are left out.
pub mod Money
pub mod Figures
pub mod Activities
pub mod Page
pub mod Submit
use lapor_kos.Prelude.{String, ℕ, ◌+◌, Option}

pub record ProfileContract : Type 0 where
  pub start_date : Option String
  pub end_date : Option String
  pub rental_duration : ℕ
  pub status : String
  pub monthly_rent : ℕ

pub record ProfileRoom : Type 0 where
  pub id : String
  pub room_number : String

pub record ProfileTenant : Type 0 where
  pub name : String
  pub phone : String
  pub room_id : Option String
  pub ktp_url : String
  pub selfie_url : String
  pub email : Option String
  pub date_of_birth : Option String
  pub gender : Option String
  pub job : Option String
  pub address : Option String
  pub notes : Option String
  pub emergency_contact_name : Option String
  pub emergency_contact_relation : Option String
  pub emergency_contact_phone : Option String
  pub contract : Option ProfileContract
  pub created_at : String
  pub room : Option ProfileRoom

pub record ProfilePayment : Type 0 where
  pub id : String
  pub status : String
  pub period_month : ℕ
  pub period_year : ℕ
  pub total_paid : ℕ
  pub amount_rent : ℕ
  pub amount_electricity : ℕ
  pub amount_water : ℕ
  pub amount_other : ℕ
  pub due_date : String
  pub payment_method : Option String

-- `totalBill`
abbrev pub total_bill : ProfilePayment → ℕ
total_bill p = p.amount_rent + p.amount_electricity + p.amount_water + p.amount_other
