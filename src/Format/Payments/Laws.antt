-- ===== src/Format/Payments/Laws.antt =====
-- The labels and colours of payments tell the statuses apart.
use lapor_kos.Prelude.{
  String, ◌≡◌, refl, ◌⊎◌, inl, inr, [], ◌∷◌, Option, none, some, switch, injective_of_read,
}
use lapor_kos.Format.Payments.{PaymentStatus, unpaid, payment_status_label, payment_status_tone}

abbrev read_label : String → Option PaymentStatus
read_label label =
    switch label
      (("Belum Bayar", some PaymentStatus.unpaid)
        ∷ ("Menunggu Verifikasi", some PaymentStatus.pending)
        ∷ ("Lunas", some PaymentStatus.paid)
        ∷ ("Dibayar Sebagian", some PaymentStatus.partial)
        ∷ ("Terlambat", some PaymentStatus.overdue)
        ∷ ("Ditolak", some PaymentStatus.rejected)
        ∷ ("Dikembalikan (Refund)", some PaymentStatus.refunded)
        ∷ ("Dibatalkan", some PaymentStatus.void)
        ∷ [])
      none

abbrev read_tone : String → Option PaymentStatus
read_tone label =
    switch label
      (("bg-rose-50 text-rose-700 border-rose-200", some PaymentStatus.unpaid)
        ∷ ("bg-amber-50 text-amber-700 border-amber-200", some PaymentStatus.pending)
        ∷ ("bg-emerald-50 text-emerald-700 border-emerald-200", some PaymentStatus.paid)
        ∷ ("bg-sky-50 text-sky-700 border-sky-200", some PaymentStatus.partial)
        ∷ ("bg-red-50 text-red-700 border-red-200", some PaymentStatus.overdue)
        ∷ ("bg-slate-100 text-slate-700 border-slate-300", some PaymentStatus.rejected)
        ∷ ("bg-purple-50 text-purple-700 border-purple-200", some PaymentStatus.refunded)
        ∷ ("bg-gray-100 text-gray-500 border-gray-200", some PaymentStatus.void)
        ∷ [])
      none

read-label : (s : PaymentStatus) → read_label (payment_status_label s) ≡ some s
unfolding payment_status_label
read-label unpaid = refl
read-label _ = refl

read-tone : (s : PaymentStatus) → read_tone (payment_status_tone s) ≡ some s
unfolding payment_status_tone
read-tone unpaid = refl
read-tone _ = refl

-- Payments of different statuses have different labels, and different colours.
payment_status_injective :
    (s t : PaymentStatus)
    → (payment_status_label s ≡ payment_status_label t)
      ⊎ (payment_status_tone s ≡ payment_status_tone t)
    → s ≡ t
payment_status_injective s t (inl h) =
    injective_of_read payment_status_label read_label read-label s t h
payment_status_injective s t (inr h) =
    injective_of_read payment_status_tone read_tone read-tone s t h
