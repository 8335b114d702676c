-- ===== src/Format/Notifications.antt =====
-- frontend/src/features/notifications/format.ts
pub mod Status
pub mod Laws
use lapor_kos.Prelude.{String, [], ◌∷◌, switch}
use lapor_kos.Format.Badges.{category_style, status_style, CategoryStyle, StatusStyle}

-- `getCategoryLabel`
unfoldable pub get_category_label : String → String
get_category_label category =
    switch category
      (("billing", "Keuangan & Tagihan")
        ∷ ("operations", "Operasional & Kamar")
        ∷ ("complaint", "Komplain")
        ∷ ("contract", "Kontrak")
        ∷ ("announcement", "Pengumuman")
        ∷ ("security", "Keamanan")
        ∷ [])
      "Umum"

-- `getCategoryBadgeStyle`
unfoldable pub get_category_badge_style : String → CategoryStyle
get_category_badge_style category =
    switch category
      (("billing", category_style "bg-emerald-50" "text-emerald-700" "border-emerald-200")
        ∷ ("operations", category_style "bg-blue-50" "text-blue-700" "border-blue-200")
        ∷ ("complaint", category_style "bg-amber-50" "text-amber-700" "border-amber-200")
        ∷ ("contract", category_style "bg-purple-50" "text-purple-700" "border-purple-200")
        ∷ ("announcement", category_style "bg-indigo-50" "text-indigo-700" "border-indigo-200")
        ∷ ("security", category_style "bg-red-50" "text-red-700" "border-red-200")
        ∷ [])
      (category_style "bg-gray-50" "text-gray-700" "border-gray-200")

-- `getOutboxStatusLabel`
unfoldable pub get_outbox_status_label : String → String
get_outbox_status_label status =
    switch status
      (("delivered", "Terkirim")
        ∷ ("failed", "Gagal")
        ∷ ("pending", "Menunggu")
        ∷ ("processing", "Memproses")
        ∷ ("partially_delivered", "Sebagian Terkirim")
        ∷ ("skipped", "Dilewati")
        ∷ ("deduplicated", "Duplikat (Diabaikan)")
        ∷ [])
      status

-- `getOutboxStatusBadge`
unfoldable pub get_outbox_status_badge : String → StatusStyle
get_outbox_status_badge status =
    switch status
      (("delivered", status_style "bg-emerald-100" "text-emerald-800")
        ∷ ("failed", status_style "bg-red-100" "text-red-800")
        ∷ ("pending", status_style "bg-amber-100" "text-amber-800")
        ∷ ("processing", status_style "bg-amber-100" "text-amber-800")
        ∷ ("partially_delivered", status_style "bg-cyan-100" "text-cyan-800")
        ∷ ("skipped", status_style "bg-gray-100" "text-gray-800")
        ∷ ("deduplicated", status_style "bg-gray-100" "text-gray-800")
        ∷ [])
      (status_style "bg-gray-100" "text-gray-800")

-- `getDeliveryStatusLabel`
unfoldable pub get_delivery_status_label : String → String
get_delivery_status_label status =
    switch status
      (("delivered", "Terkirim")
        ∷ ("failed", "Gagal")
        ∷ ("pending", "Menunggu")
        ∷ ("skipped_quiet_hours", "Jam Tenang")
        ∷ ("opted_out", "Opt-out")
        ∷ ("deduplicated", "Duplikat")
        ∷ [])
      status
