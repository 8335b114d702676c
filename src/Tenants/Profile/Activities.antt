-- ===== src/Tenants/Profile/Activities.antt =====
-- frontend/src/app/(dashboard)/tenants/[id]/page.tsx: the activities of a tenant. `upper` is
-- `toUpperCase`, `locale` is `toLocaleString('id-ID')` of an amount, and `date` writes the day and the
-- month of a date.
pub mod Laws
use lapor_kos.Prelude.{
  String, ℕ, Bool, not, ◌||◌, Option, none, some, List, [], ◌∷◌, ◌++◌, ◌==◌, ◌^^◌, filter, map,
  show, truthy, get_or, or_else, optional, eqb, if◌then◌else◌,
}
use lapor_kos.Tenants.{or_text}
use lapor_kos.Tenants.Profile.{ProfileContract, ProfilePayment, ProfileTenant, total_bill}

pub record Activity : Type 0 where
  pub id : String
  pub title : String
  pub subtitle : String
  pub date : String
  pub type : String

pub data ActivityFilter : Type 0 where
  all pembayaran kontrak check_in checkout : ActivityFilter

abbrev pub filter_text : ActivityFilter → String
filter_text all = "all"
filter_text pembayaran = "pembayaran"
filter_text kontrak = "kontrak"
filter_text check_in = "check-in"
filter_text checkout = "checkout"

abbrev pub payment_activity : ProfilePayment → String → String → String → Activity
payment_activity p title subtitle date = record {
  id = "pay-" ^^ p.id;
  title = title ^^ " (Bulan " ^^ show p.period_month ^^ ")";
  subtitle = subtitle;
  date = date;
  type = "pembayaran";
}

module _ (upper : String → String) (locale : ℕ → String) (date : String → String) where
  -- `payments.map(...)`
  abbrev pub activity_of : ProfilePayment → Activity
  activity_of p =
      if p.status == "paid"
      then payment_activity p "Tagihan Lunas"
          ("Rp "
            ^^ locale p.total_paid
            ^^ " - "
            ^^ (if truthy p.payment_method then upper (get_or p.payment_method "") else "TRANSFER"))
          (date p.due_date)
      else if p.status == "pending"
      then payment_activity p "Verifikasi Tertunda"
          ("Rp " ^^ locale p.total_paid ^^ " - Menunggu persetujuan owner") (date p.due_date)
      else if p.status == "partial"
      then payment_activity p "Dibayar Sebagian"
          ("Terbayar Rp " ^^ locale p.total_paid ^^ " dari Rp " ^^ locale (total_bill p))
          (date p.due_date)
      else payment_activity p "Tagihan Belum Dibayar"
          ("Tagihan Rp " ^^ locale (total_bill p) ^^ " jatuh tempo") (date p.due_date)

  abbrev room_number_of : ProfileTenant → String
  room_number_of t = or_text (optional (λ r. some r.room_number) t.room) "-"

  abbrev start_of : ProfileTenant → Option String
  start_of t = optional (λ c. c.start_date) t.contract

  -- `rental_duration || 1`
  abbrev duration_of : Option ProfileContract → ℕ
  duration_of none = 1
  duration_of (some c) = if eqb c.rental_duration 0 then 1 else c.rental_duration

  abbrev pub contract_made : ProfileTenant → Activity
  contract_made t = record {
    id = "contract-created";
    title = "Kontrak Dibuat";
    subtitle = "Periode " ^^ show (duration_of t.contract) ^^ " bulan dimulai";
    date = date (or_text (start_of t) t.created_at);
    type = "kontrak";
  }

  abbrev pub checked_in : ProfileTenant → List Activity
  checked_in t =
      if truthy (start_of t)
      then record {
        id = "check-in";
        title = "Check-in Kamar";
        subtitle = "Penghuni masuk ke Kamar " ^^ room_number_of t;
        date = date (get_or (start_of t) "");
        type = "check-in";
      }
        ∷ []
      else []

  abbrev is_gone : Option ProfileContract → Bool
  is_gone none = Bool.false
  is_gone (some c) = c.status == "checked_out" || c.status == "inactive"

  abbrev pub checked_out : ProfileTenant → List Activity
  checked_out t =
      if is_gone t.contract
      then record {
        id = "checkout";
        title = "Checkout Kamar";
        subtitle = "Penghuni telah keluar dari Kamar " ^^ room_number_of t;
        date = date (get_or (optional (λ c. c.end_date) t.contract) "");
        type = "checkout";
      }
        ∷ []
      else []

  -- `!tenant.selfie_url || !tenant.ktp_url`
  abbrev pub lacks_documents : ProfileTenant → Bool
  lacks_documents t = t.selfie_url == "" || t.ktp_url == ""

  abbrev pub document_warning : ProfileTenant → List Activity
  document_warning t =
      if lacks_documents t
      then record {
        id = "doc-warning";
        title = "Dokumen Belum Lengkap";
        subtitle = "Harap lengkapi KTP dan Selfie";
        date = date t.created_at;
        type = "dokumen";
      }
        ∷ []
      else []

  unfoldable pub activities : ProfileTenant → List ProfilePayment → List Activity
  activities t payments =
      map activity_of payments
      ++ contract_made t ∷ (checked_in t ++ (checked_out t ++ document_warning t))

-- `activityFilter === 'all' || act.type === activityFilter`
abbrev pub passes : ActivityFilter → Activity → Bool
passes f a = filter_text f == "all" || a.type == filter_text f

unfoldable pub shown_activities : ActivityFilter → List Activity → List Activity
shown_activities f xs = filter (passes f) xs
