-- ===== src/Format/Visitors/Laws.antt =====
-- The badge of a visitor's permit tells the statuses apart, and shows an overstay.
use lapor_kos.Prelude.{
  String, eq_of_some-eq, ◌≡◌, refl, sym, ap, ◌∙◌, Bool, true, false, ◌&&◌, [], ◌∷◌, Option, none,
  some, switch,
}
use lapor_kos.Format.Badges.{ClassBadge}
use lapor_kos.Format.Visitors.{get_visitor_status_badge}
use lapor_kos.Format.Visitors.Status.{
  VisitorPermitStatus, pending, approved, rejected, change_requested, active, completed, cancelled,
  expired, visitor_permit_status,
}

abbrev pub is_active : VisitorPermitStatus → Bool
is_active active = true
is_active _ = false

abbrev label : VisitorPermitStatus → Bool → String
label s overstay = ClassBadge.label (get_visitor_status_badge (visitor_permit_status s) overstay)

abbrev read_label : String → Option (VisitorPermitStatus × Bool)
read_label l =
    switch l
      (("Overstay di Lokasi", some (active, true))
        ∷ ("Menunggu Persetujuan", some (pending, false))
        ∷ ("Disetujui", some (approved, false))
        ∷ ("Ditolak", some (rejected, false))
        ∷ ("Perlu Revisi", some (change_requested, false))
        ∷ ("Tamu di Lokasi (Aktif)", some (active, false))
        ∷ ("Selesai (Checked Out)", some (completed, false))
        ∷ ("Dibatalkan", some (cancelled, false))
        ∷ ("Kedaluwarsa", some (expired, false))
        ∷ [])
      none

read-label :
    (s : VisitorPermitStatus) (o : Bool) → read_label (label s o) ≡ some (s, is_active s && o)
unfolding get_visitor_status_badge
read-label pending true = refl
read-label pending false = refl
read-label approved true = refl
read-label rejected true = refl
read-label change_requested true = refl
read-label active true = refl
read-label completed true = refl
read-label cancelled true = refl
read-label expired true = refl
read-label _ false = refl

-- Two permits with one label have one status, and agree on whether an active visitor overstays.
visitor_label_injective :
    (s t : VisitorPermitStatus) (o p : Bool)
    → ClassBadge.label (get_visitor_status_badge (visitor_permit_status s) o)
      ≡ ClassBadge.label (get_visitor_status_badge (visitor_permit_status t) p)
    → (s ≡ t) × ((is_active s && o) ≡ (is_active t && p))
visitor_label_injective s t o p h =
    let pairs = eq_of_some-eq (sym (read-label s o) ∙ ap read_label h ∙ read-label t p) in
    (ap (λ q. q.0) pairs, ap (λ q. q.1) pairs)
