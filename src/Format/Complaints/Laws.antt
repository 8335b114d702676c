-- ===== src/Format/Complaints/Laws.antt =====
-- The badges of a complaint.
use lapor_kos.Prelude.{
  eq_of_some-eq, String, ◌≡◌, refl, sym, ap, ◌∙◌, ◌↔◌, [], ◌∷◌, Option, none, some, switch,
}
use lapor_kos.Format.Badges.{ColorBadge}
use lapor_kos.Format.Complaints.{get_status_badge}
use lapor_kos.Format.Complaints.Status.{ComplaintStatus, pending, processed, complaint_status}

-- The status `processed` is an older name of `in_progress`.
abbrev pub current_name : ComplaintStatus → ComplaintStatus
current_name processed = ComplaintStatus.in_progress
current_name s = s

abbrev badge : ComplaintStatus → ColorBadge
badge s = get_status_badge (some (complaint_status s))

abbrev read_label : String → Option ComplaintStatus
read_label l =
    switch l
      (("Menunggu", some ComplaintStatus.pending)
        ∷ ("Diproses", some ComplaintStatus.in_progress)
        ∷ ("Terjadwal", some ComplaintStatus.scheduled)
        ∷ ("Menunggu Vendor", some ComplaintStatus.waiting_vendor)
        ∷ ("Selesai (Menunggu Konfirmasi)", some ComplaintStatus.resolved)
        ∷ ("Tuntas & Dikonfirmasi", some ComplaintStatus.confirmed)
        ∷ ("Dibuka Kembali", some ComplaintStatus.reopened)
        ∷ ("Dibatalkan", some ComplaintStatus.cancelled)
        ∷ [])
      none

read-badge : (s : ComplaintStatus) → read_label (badge s).label ≡ some (current_name s)
unfolding get_status_badge
read-badge pending = refl
read-badge _ = refl

badge-current_name : (s : ComplaintStatus) → badge (current_name s) ≡ badge s
unfolding get_status_badge
badge-current_name pending = refl
badge-current_name _ = refl

-- Two complaints have the same badge exactly when they have the same status, the two names of the
-- status in progress taken for one; and then already if their labels are the same.
complaint_badge_iff :
    (s t : ComplaintStatus)
    → (((get_status_badge (some (complaint_status s))).label
          ≡ (get_status_badge (some (complaint_status t))).label)
        ↔ (current_name s ≡ current_name t))
      × ((get_status_badge (some (complaint_status s))
            ≡ get_status_badge (some (complaint_status t)))
          ↔ (current_name s ≡ current_name t))
complaint_badge_iff s t =
    let read = λ (h : (badge s).label ≡ (badge t).label).
      eq_of_some-eq (sym (read-badge s) ∙ ap read_label h ∙ read-badge t) in
    let write = λ (h : current_name s ≡ current_name t).
      sym (badge-current_name s) ∙ ap badge h ∙ badge-current_name t in
    ((read, λ h. ap ColorBadge.label (write h)), (λ h. read (ap ColorBadge.label h), write))
