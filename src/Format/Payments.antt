-- ===== src/Format/Payments.antt =====
-- frontend/src/features/payments/format.ts and types.ts: months and the labels of payments.
pub mod Laws
use lapor_kos.Prelude.{
  String, ℕ, ◌-◌, List, [], ◌∷◌, Option, none, some, ◌^^◌, eqb, get_elem?, get_or, or_else, show,
  if◌then◌else◌,
}

abbrev pub months : List String
months =
    "Januari" ∷ "Februari" ∷ "Maret" ∷ "April" ∷ "Mei" ∷ "Juni" ∷ "Juli" ∷ "Agustus" ∷ "September"
    ∷ "Oktober" ∷ "November" ∷ "Desember" ∷ []

-- `months[month - 1]`, which is `undefined` for the month 0 too.
abbrev pub month_entry : ℕ → Option String
month_entry month = if eqb month 0 then none else get_elem? months (month - 1)

unfoldable pub month_name : ℕ → String
month_name month = get_or (or_else (month_entry month) (some ("Bulan " ^^ show month))) ""

pub format_period : ℕ → ℕ → String
format_period month year = month_name month ^^ " " ^^ show year

-- `PaymentStatus`
pub data PaymentStatus : Type 0 where
  unpaid pending paid partial overdue rejected refunded void : PaymentStatus

-- The text that the type stands for.
abbrev pub payment_status : PaymentStatus → String
payment_status unpaid = "unpaid"
payment_status PaymentStatus.pending = "pending"
payment_status paid = "paid"
payment_status partial = "partial"
payment_status overdue = "overdue"
payment_status PaymentStatus.rejected = "rejected"
payment_status refunded = "refunded"
payment_status void = "void"

-- `RefundStatus`
pub data RefundStatus : Type 0 where
  requested approved rejected disbursed : RefundStatus

-- The text that the type stands for.
abbrev pub refund_status : RefundStatus → String
refund_status requested = "requested"
refund_status approved = "approved"
refund_status RefundStatus.rejected = "rejected"
refund_status disbursed = "disbursed"

-- `paymentStatusLabel`
unfoldable pub payment_status_label : PaymentStatus → String
payment_status_label unpaid = "Belum Bayar"
payment_status_label PaymentStatus.pending = "Menunggu Verifikasi"
payment_status_label paid = "Lunas"
payment_status_label partial = "Dibayar Sebagian"
payment_status_label overdue = "Terlambat"
payment_status_label PaymentStatus.rejected = "Ditolak"
payment_status_label refunded = "Dikembalikan (Refund)"
payment_status_label void = "Dibatalkan"

-- `paymentStatusTone`
unfoldable pub payment_status_tone : PaymentStatus → String
payment_status_tone unpaid = "bg-rose-50 text-rose-700 border-rose-200"
payment_status_tone PaymentStatus.pending = "bg-amber-50 text-amber-700 border-amber-200"
payment_status_tone paid = "bg-emerald-50 text-emerald-700 border-emerald-200"
payment_status_tone partial = "bg-sky-50 text-sky-700 border-sky-200"
payment_status_tone overdue = "bg-red-50 text-red-700 border-red-200"
payment_status_tone PaymentStatus.rejected = "bg-slate-100 text-slate-700 border-slate-300"
payment_status_tone refunded = "bg-purple-50 text-purple-700 border-purple-200"
payment_status_tone void = "bg-gray-100 text-gray-500 border-gray-200"

-- `refundStatusLabel`
unfoldable pub refund_status_label : RefundStatus → String
refund_status_label requested = "Diajukan"
refund_status_label RefundStatus.approved = "Disetujui"
refund_status_label RefundStatus.rejected = "Ditolak"
refund_status_label disbursed = "Telah Dicairkan"

-- `refundStatusTone`
unfoldable pub refund_status_tone : RefundStatus → String
refund_status_tone requested = "bg-amber-50 text-amber-700 border-amber-200"
refund_status_tone RefundStatus.approved = "bg-sky-50 text-sky-700 border-sky-200"
refund_status_tone RefundStatus.rejected = "bg-rose-50 text-rose-700 border-rose-200"
refund_status_tone disbursed = "bg-emerald-50 text-emerald-700 border-emerald-200"
