-- ===== src/Format/Checkouts/Laws.antt =====
-- The badges of a checkout tell its statuses apart.
use lapor_kos.Prelude.{String, ◌≡◌, refl, [], ◌∷◌, Option, none, some, switch, injective_of_read}
use lapor_kos.Format.Badges.{ClassBadge}
use lapor_kos.Format.Checkouts.{get_checkout_status_badge}
use lapor_kos.Format.Checkouts.Status.{
  CheckoutStatus, submitted, inspection_scheduled, inspection_completed, settlement_pending,
  approved, completed, cancelled, checkout_status,
}

abbrev status_label : CheckoutStatus → String
status_label s = ClassBadge.label (get_checkout_status_badge (checkout_status s))

abbrev read_label : String → Option CheckoutStatus
read_label label =
    switch label
      (("Notice Diajukan", some submitted)
        ∷ ("Jadwal Inspeksi", some inspection_scheduled)
        ∷ ("Inspeksi Selesai", some inspection_completed)
        ∷ ("Review Settlement", some settlement_pending)
        ∷ ("Disetujui", some approved)
        ∷ ("Selesai (Closed)", some completed)
        ∷ ("Dibatalkan", some cancelled)
        ∷ [])
      none

read-status_label : (s : CheckoutStatus) → read_label (status_label s) ≡ some s
unfolding get_checkout_status_badge
read-status_label submitted = refl
read-status_label _ = refl

-- Checkouts of different statuses have different labels.
checkout_label_injective :
    (s t : CheckoutStatus)
    → ClassBadge.label (get_checkout_status_badge (checkout_status s))
      ≡ ClassBadge.label (get_checkout_status_badge (checkout_status t))
    → s ≡ t
checkout_label_injective = injective_of_read status_label read_label read-status_label
