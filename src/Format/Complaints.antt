-- ===== src/Format/Complaints.antt =====
-- frontend/src/features/complaints/format.ts
pub mod Status
pub mod Laws
use lapor_kos.Prelude.{String, Option, some, [], ◌∷◌, or_else, get_or, switch_option}
use lapor_kos.Format.Badges.{dot_badge, color_badge, DotBadge, ColorBadge}

-- `getPriorityBadge`
unfoldable pub get_priority_badge : Option String → DotBadge
get_priority_badge priority =
    switch_option priority
      ((
        "urgent",
        dot_badge "Darurat / Urgent"
            "text-red-700 bg-red-50 border-red-200 dark:bg-red-950/40 dark:text-red-300 dark:border-red-800"
            "bg-red-500",
      )
        ∷ (
          "high",
          dot_badge "Tinggi"
              "text-amber-700 bg-amber-50 border-amber-200 dark:bg-amber-950/40 dark:text-amber-300 dark:border-amber-800"
              "bg-amber-500",
        )
        ∷ (
          "medium",
          dot_badge "Sedang"
              "text-blue-700 bg-blue-50 border-blue-200 dark:bg-blue-950/40 dark:text-blue-300 dark:border-blue-800"
              "bg-blue-500",
        )
        ∷ (
          "low",
          dot_badge "Rendah"
              "text-emerald-700 bg-emerald-50 border-emerald-200 dark:bg-emerald-950/40 dark:text-emerald-300 dark:border-emerald-800"
              "bg-emerald-500",
        )
        ∷ [])
      (dot_badge (get_or (or_else priority (some "Sedang")) "")
        "text-zinc-700 bg-zinc-50 border-zinc-200 dark:bg-zinc-800 dark:text-zinc-300 dark:border-zinc-700"
        "bg-zinc-400")

-- `getImpactBadge`
unfoldable pub get_impact_badge : Option String → ColorBadge
get_impact_badge impact =
    switch_option impact
      ((
        "emergency",
        color_badge "Dampak Kritis"
            "text-red-700 bg-red-100/70 border-red-300 dark:bg-red-900/40 dark:text-red-300 dark:border-red-700",
      )
        ∷ (
          "major",
          color_badge "Dampak Mayor"
              "text-orange-700 bg-orange-100/70 border-orange-300 dark:bg-orange-900/40 dark:text-orange-300 dark:border-orange-700",
        )
        ∷ (
          "minor",
          color_badge "Dampak Minor"
              "text-zinc-600 bg-zinc-100 border-zinc-200 dark:bg-zinc-800 dark:text-zinc-400 dark:border-zinc-700",
        )
        ∷ [])
      (color_badge "Dampak Minor"
        "text-zinc-600 bg-zinc-100 border-zinc-200 dark:bg-zinc-800 dark:text-zinc-400 dark:border-zinc-700")

-- `getStatusBadge`
unfoldable pub get_status_badge : Option String → ColorBadge
get_status_badge status =
    switch_option status
      ((
        "pending",
        color_badge "Menunggu"
            "text-amber-700 bg-amber-50 border-amber-200 dark:bg-amber-950/40 dark:text-amber-300 dark:border-amber-800",
      )
        ∷ (
          "in_progress",
          color_badge "Diproses"
              "text-blue-700 bg-blue-50 border-blue-200 dark:bg-blue-950/40 dark:text-blue-300 dark:border-blue-800",
        )
        ∷ (
          "processed",
          color_badge "Diproses"
              "text-blue-700 bg-blue-50 border-blue-200 dark:bg-blue-950/40 dark:text-blue-300 dark:border-blue-800",
        )
        ∷ (
          "scheduled",
          color_badge "Terjadwal"
              "text-purple-700 bg-purple-50 border-purple-200 dark:bg-purple-950/40 dark:text-purple-300 dark:border-purple-800",
        )
        ∷ (
          "waiting_vendor",
          color_badge "Menunggu Vendor"
              "text-indigo-700 bg-indigo-50 border-indigo-200 dark:bg-indigo-950/40 dark:text-indigo-300 dark:border-indigo-800",
        )
        ∷ (
          "resolved",
          color_badge "Selesai (Menunggu Konfirmasi)"
              "text-teal-700 bg-teal-50 border-teal-200 dark:bg-teal-950/40 dark:text-teal-300 dark:border-teal-800",
        )
        ∷ (
          "confirmed",
          color_badge "Tuntas & Dikonfirmasi"
              "text-emerald-700 bg-emerald-50 border-emerald-200 dark:bg-emerald-950/40 dark:text-emerald-300 dark:border-emerald-800",
        )
        ∷ (
          "reopened",
          color_badge "Dibuka Kembali"
              "text-rose-700 bg-rose-50 border-rose-200 dark:bg-rose-950/40 dark:text-rose-300 dark:border-rose-800",
        )
        ∷ (
          "cancelled",
          color_badge "Dibatalkan"
              "text-zinc-600 bg-zinc-100 border-zinc-200 dark:bg-zinc-800 dark:text-zinc-400 dark:border-zinc-700",
        )
        ∷ [])
      (color_badge (get_or (or_else status (some "Pending")) "")
        "text-zinc-700 bg-zinc-50 border-zinc-200 dark:bg-zinc-800 dark:text-zinc-300 dark:border-zinc-700")

-- `getSLABadge`
unfoldable pub get_sla_badge : Option String → ColorBadge
get_sla_badge sla_status =
    switch_option sla_status
      ((
        "within_sla",
        color_badge "Dalam Batas SLA"
            "text-emerald-700 bg-emerald-50 border-emerald-200 dark:bg-emerald-950/40 dark:text-emerald-300 dark:border-emerald-800",
      )
        ∷ (
          "warning",
          color_badge "Mendekati Batas SLA"
              "text-amber-700 bg-amber-50 border-amber-200 dark:bg-amber-950/40 dark:text-amber-300 dark:border-amber-800",
        )
        ∷ (
          "breached",
          color_badge "Melewati Batas SLA (Breached)"
              "text-red-700 bg-red-50 border-red-200 dark:bg-red-950/40 dark:text-red-300 dark:border-red-800",
        )
        ∷ [])
      (color_badge "SLA Normal"
        "text-zinc-700 bg-zinc-50 border-zinc-200 dark:bg-zinc-800 dark:text-zinc-300 dark:border-zinc-700")

-- `getWorkOrderStatusBadge`
unfoldable pub get_work_order_status_badge : Option String → ColorBadge
get_work_order_status_badge status =
    switch_option status
      ((
        "draft",
        color_badge "Draf"
            "text-zinc-600 bg-zinc-100 border-zinc-200 dark:bg-zinc-800 dark:text-zinc-400 dark:border-zinc-700",
      )
        ∷ (
          "assigned",
          color_badge "Ditugaskan ke Vendor"
              "text-blue-700 bg-blue-50 border-blue-200 dark:bg-blue-950/40 dark:text-blue-300 dark:border-blue-800",
        )
        ∷ (
          "scheduled",
          color_badge "Kunjungan Terjadwal"
              "text-purple-700 bg-purple-50 border-purple-200 dark:bg-purple-950/40 dark:text-purple-300 dark:border-purple-800",
        )
        ∷ (
          "in_progress",
          color_badge "Sedang Dikerjakan"
              "text-amber-700 bg-amber-50 border-amber-200 dark:bg-amber-950/40 dark:text-amber-300 dark:border-amber-800",
        )
        ∷ (
          "completed",
          color_badge "Pekerjaan Selesai"
              "text-emerald-700 bg-emerald-50 border-emerald-200 dark:bg-emerald-950/40 dark:text-emerald-300 dark:border-emerald-800",
        )
        ∷ (
          "cancelled",
          color_badge "Dibatalkan"
              "text-zinc-600 bg-zinc-100 border-zinc-200 dark:bg-zinc-800 dark:text-zinc-400 dark:border-zinc-700",
        )
        ∷ [])
      (color_badge (get_or (or_else status (some "Draf")) "")
        "text-zinc-700 bg-zinc-50 border-zinc-200 dark:bg-zinc-800 dark:text-zinc-300 dark:border-zinc-700")

-- `getCategoryLabel`
unfoldable pub get_category_label : Option String → String
get_category_label category =
    switch_option category
      (("facility", "Kerusakan Fasilitas")
        ∷ ("cleanliness", "Kebersihan")
        ∷ ("noisy", "Keributan / Gangguan Suara")
        ∷ ("security", "Keamanan")
        ∷ ("other", "Lainnya")
        ∷ [])
      "Lainnya"
