-- ===== src/Format/RoomTransfers.antt =====
-- frontend/src/features/room-transfers/format.ts
use lapor_kos.Prelude.{String, [], ◌∷◌, switch}
use lapor_kos.Format.Badges.{border_badge, BorderBadge}

-- `getTransferStatusBadge`
unfoldable pub get_transfer_status_badge : String → BorderBadge
get_transfer_status_badge status =
    switch status
      ((
        "pending",
        border_badge "Menunggu Persetujuan" "bg-amber-50" "text-amber-700" "border-amber-200",
      )
        ∷ ("approved", border_badge "Disetujui" "bg-blue-50" "text-blue-700" "border-blue-200")
        ∷ (
          "completed",
          border_badge "Selesai Dipindahkan" "bg-emerald-50" "text-emerald-700"
              "border-emerald-200",
        )
        ∷ ("rejected", border_badge "Ditolak" "bg-rose-50" "text-rose-700" "border-rose-200")
        ∷ ("cancelled", border_badge "Dibatalkan" "bg-gray-50" "text-gray-600" "border-gray-200")
        ∷ [])
      (border_badge status "bg-gray-50" "text-gray-600" "border-gray-200")
