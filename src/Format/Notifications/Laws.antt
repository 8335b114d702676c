-- ===== src/Format/Notifications/Laws.antt =====
-- The labels of the outbox and of the deliveries tell the statuses apart.
use lapor_kos.Prelude.{String, ◌≡◌, refl, [], ◌∷◌, Option, none, some, switch, injective_of_read}
use lapor_kos.Format.Notifications.{get_outbox_status_label, get_delivery_status_label}
use lapor_kos.Format.Notifications.Status.{
  OutboxStatus, DeliveryStatus, processing, opted_out, outbox_status, delivery_status,
}

abbrev outbox_label : OutboxStatus → String
outbox_label s = get_outbox_status_label (outbox_status s)

abbrev delivery_label : DeliveryStatus → String
delivery_label s = get_delivery_status_label (delivery_status s)

abbrev read_outbox : String → Option OutboxStatus
read_outbox label =
    switch label
      (("Menunggu", some OutboxStatus.pending)
        ∷ ("Memproses", some OutboxStatus.processing)
        ∷ ("Terkirim", some OutboxStatus.delivered)
        ∷ ("Gagal", some OutboxStatus.failed)
        ∷ ("Sebagian Terkirim", some OutboxStatus.partially_delivered)
        ∷ ("Dilewati", some OutboxStatus.skipped)
        ∷ ("Duplikat (Diabaikan)", some OutboxStatus.deduplicated)
        ∷ [])
      none

abbrev read_delivery : String → Option DeliveryStatus
read_delivery label =
    switch label
      (("Menunggu", some DeliveryStatus.pending)
        ∷ ("Terkirim", some DeliveryStatus.delivered)
        ∷ ("Gagal", some DeliveryStatus.failed)
        ∷ ("Jam Tenang", some DeliveryStatus.skipped_quiet_hours)
        ∷ ("Opt-out", some DeliveryStatus.opted_out)
        ∷ ("Duplikat", some DeliveryStatus.deduplicated)
        ∷ [])
      none

read-outbox_label : (s : OutboxStatus) → read_outbox (outbox_label s) ≡ some s
unfolding get_outbox_status_label
read-outbox_label processing = refl
read-outbox_label _ = refl

read-delivery_label : (s : DeliveryStatus) → read_delivery (delivery_label s) ≡ some s
unfolding get_delivery_status_label
read-delivery_label opted_out = refl
read-delivery_label _ = refl

-- Outbox entries of different statuses have different labels.
outbox_label_injective :
    (s t : OutboxStatus)
    → get_outbox_status_label (outbox_status s) ≡ get_outbox_status_label (outbox_status t)
    → s ≡ t
outbox_label_injective = injective_of_read outbox_label read_outbox read-outbox_label

-- Deliveries of different statuses have different labels.
delivery_label_injective :
    (s t : DeliveryStatus)
    → get_delivery_status_label (delivery_status s) ≡ get_delivery_status_label (delivery_status t)
    → s ≡ t
delivery_label_injective = injective_of_read delivery_label read_delivery read-delivery_label
