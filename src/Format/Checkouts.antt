-- ===== src/Format/Checkouts.antt =====
-- frontend/src/features/checkouts/format.ts
pub mod Status
pub mod Laws
use lapor_kos.Prelude.{String, [], ◌∷◌, switch}
use lapor_kos.Format.Badges.{class_badge, ClassBadge}

-- `getCheckoutStatusBadge`
unfoldable pub get_checkout_status_badge : String → ClassBadge
get_checkout_status_badge status =
    switch status
      ((
        "submitted",
        class_badge "Notice Diajukan"
            "bg-amber-100 text-amber-800 border-amber-300 dark:bg-amber-900/30 dark:text-amber-400 dark:border-amber-700",
      )
        ∷ (
          "inspection_scheduled",
          class_badge "Jadwal Inspeksi"
              "bg-blue-100 text-blue-800 border-blue-300 dark:bg-blue-900/30 dark:text-blue-400 dark:border-blue-700",
        )
        ∷ (
          "inspection_completed",
          class_badge "Inspeksi Selesai"
              "bg-indigo-100 text-indigo-800 border-indigo-300 dark:bg-indigo-900/30 dark:text-indigo-400 dark:border-indigo-700",
        )
        ∷ (
          "settlement_pending",
          class_badge "Review Settlement"
              "bg-purple-100 text-purple-800 border-purple-300 dark:bg-purple-900/30 dark:text-purple-400 dark:border-purple-700",
        )
        ∷ (
          "approved",
          class_badge "Disetujui"
              "bg-emerald-100 text-emerald-800 border-emerald-300 dark:bg-emerald-900/30 dark:text-emerald-400 dark:border-emerald-700",
        )
        ∷ (
          "completed",
          class_badge "Selesai (Closed)"
              "bg-teal-100 text-teal-800 border-teal-300 dark:bg-teal-900/30 dark:text-teal-400 dark:border-teal-700",
        )
        ∷ (
          "cancelled",
          class_badge "Dibatalkan"
              "bg-rose-100 text-rose-800 border-rose-300 dark:bg-rose-900/30 dark:text-rose-400 dark:border-rose-700",
        )
        ∷ [])
      (class_badge status
        "bg-slate-100 text-slate-800 border-slate-300 dark:bg-slate-800 dark:text-slate-300")

-- `getConditionBadge`
unfoldable pub get_condition_badge : String → ClassBadge
get_condition_badge condition =
    switch condition
      ((
        "good",
        class_badge "Baik"
            "bg-emerald-100 text-emerald-800 dark:bg-emerald-900/30 dark:text-emerald-400",
      )
        ∷ (
          "fair",
          class_badge "Wajar / Aus"
              "bg-blue-100 text-blue-800 dark:bg-blue-900/30 dark:text-blue-400",
        )
        ∷ (
          "damaged",
          class_badge "Rusak" "bg-rose-100 text-rose-800 dark:bg-rose-900/30 dark:text-rose-400",
        )
        ∷ (
          "missing",
          class_badge "Hilang"
              "bg-amber-100 text-amber-800 dark:bg-amber-900/30 dark:text-amber-400",
        )
        ∷ (
          "dirty",
          class_badge "Kotor"
              "bg-orange-100 text-orange-800 dark:bg-orange-900/30 dark:text-orange-400",
        )
        ∷ [])
      (class_badge condition "bg-slate-100 text-slate-800")

-- `getSettlementTypeBadge`
unfoldable pub get_settlement_type_badge : String → ClassBadge
get_settlement_type_badge type =
    switch type
      ((
        "refund",
        class_badge "Refund Deposit ke Tenant"
            "bg-emerald-100 text-emerald-800 dark:bg-emerald-900/30 dark:text-emerald-400",
      )
        ∷ (
          "invoice",
          class_badge "Tagihan Kurang Bayar"
              "bg-rose-100 text-rose-800 dark:bg-rose-900/30 dark:text-rose-400",
        )
        ∷ (
          "zero_balance",
          class_badge "Saldo Pas (Nol)"
              "bg-slate-100 text-slate-800 dark:bg-slate-800 dark:text-slate-300",
        )
        ∷ [])
      (class_badge type "bg-slate-100 text-slate-800")
