-- ===== src/Format/Finance.antt =====
-- frontend/src/features/finance/format.ts
use lapor_kos.Prelude.{String, [], ◌∷◌, switch}
use lapor_kos.Format.Badges.{
  category_badge, border_badge, period_badge, plain_badge, aging_badge, CategoryBadge, BorderBadge,
  PeriodBadge, PlainBadge, AgingBadge,
}

-- `formatExpenseCategory`
unfoldable pub format_expense_category : String → CategoryBadge
format_expense_category category =
    switch category
      ((
        "maintenance",
        category_badge "Perawatan & Servis" "#f59e0b" "bg-amber-50"
            "text-amber-700 border-amber-200",
      )
        ∷ (
          "utilities",
          category_badge "Listrik, Air & WiFi" "#0284c7" "bg-sky-50" "text-sky-700 border-sky-200",
        )
        ∷ (
          "cleaning",
          category_badge "Kebersihan & Sampah" "#10b981" "bg-emerald-50"
              "text-emerald-700 border-emerald-200",
        )
        ∷ (
          "supplies",
          category_badge "Perlengkapan Kos" "#8b5cf6" "bg-purple-50"
              "text-purple-700 border-purple-200",
        )
        ∷ (
          "operational",
          category_badge "Operasional Umum" "#0d9488" "bg-teal-50" "text-teal-700 border-teal-200",
        )
        ∷ (
          "tax_legal",
          category_badge "Pajak & Legalitas" "#64748b" "bg-slate-50"
              "text-slate-700 border-slate-200",
        )
        ∷ (
          "marketing",
          category_badge "Pemasaran & Iklan" "#ec4899" "bg-pink-50" "text-pink-700 border-pink-200",
        )
        ∷ (
          "staff_salary",
          category_badge "Gaji & Upah Staff" "#6366f1" "bg-indigo-50"
              "text-indigo-700 border-indigo-200",
        )
        ∷ [])
      (category_badge "Lain-lain" "#94a3b8" "bg-gray-50" "text-gray-700 border-gray-200")

-- `formatExpenseStatus`
unfoldable pub format_expense_status : String → BorderBadge
format_expense_status status =
    switch status
      (("approved", border_badge "Disetujui" "bg-blue-50" "text-blue-700" "border-blue-200")
        ∷ ("paid", border_badge "Dibayar" "bg-emerald-50" "text-emerald-700" "border-emerald-200")
        ∷ (
          "pending_approval",
          border_badge "Menunggu Persetujuan" "bg-amber-50" "text-amber-700" "border-amber-200",
        )
        ∷ ("rejected", border_badge "Ditolak" "bg-rose-50" "text-rose-700" "border-rose-200")
        ∷ ("draft", border_badge "Draf" "bg-slate-50" "text-slate-700" "border-slate-200")
        ∷ ("cancelled", border_badge "Dibatalkan" "bg-gray-50" "text-gray-700" "border-gray-200")
        ∷ [])
      (border_badge status "bg-gray-50" "text-gray-700" "border-gray-200")

-- `formatPeriodStatus`
unfoldable pub format_period_status : String → PeriodBadge
format_period_status status =
    switch status
      ((
        "closed",
        period_badge "Periode Ditutup (Closed)" "bg-amber-50" "text-amber-800"
            "border-amber-200 bg-amber-50 text-amber-700",
      )
        ∷ (
          "locked",
          period_badge "Terkunci Permanen (Locked)" "bg-purple-50" "text-purple-800"
              "border-purple-200 bg-purple-50 text-purple-700",
        )
        ∷ (
          "reopened",
          period_badge "Dibuka Kembali (Reopened)" "bg-sky-50" "text-sky-800"
              "border-sky-200 bg-sky-50 text-sky-700",
        )
        ∷ [])
      (period_badge "Aktif Terbuka" "bg-emerald-50" "text-emerald-800"
        "border-emerald-200 bg-emerald-50 text-emerald-700")

-- `formatAdjustmentStatus`
unfoldable pub format_adjustment_status : String → PlainBadge
format_adjustment_status status =
    switch status
      (("approved", plain_badge "Disetujui" "bg-emerald-50 text-emerald-700 border-emerald-200")
        ∷ ("rejected", plain_badge "Ditolak" "bg-rose-50 text-rose-700 border-rose-200")
        ∷ ("pending", plain_badge "Menunggu Approval" "bg-amber-50 text-amber-700 border-amber-200")
        ∷ [])
      (plain_badge "Menunggu Approval" "bg-amber-50 text-amber-700 border-amber-200")

-- `formatAgingBucket`
unfoldable pub format_aging_bucket : String → AgingBadge
format_aging_bucket bucket =
    switch bucket
      ((
        "current",
        aging_badge "Lancar" "≤ 30 hari jatuh tempo"
            "bg-emerald-50 text-emerald-700 border-emerald-200",
      )
        ∷ (
          "31_60",
          aging_badge "31 - 60 Hari" "Lewat 1-2 bulan"
              "bg-amber-50 text-amber-700 border-amber-200",
        )
        ∷ (
          "61_90",
          aging_badge "61 - 90 Hari" "Lewat 2-3 bulan"
              "bg-orange-50 text-orange-700 border-orange-200",
        )
        ∷ (
          "90_plus",
          aging_badge "> 90 Hari (Macet)" "Tertunggak > 3 bulan"
              "bg-rose-50 text-rose-700 border-rose-200",
        )
        ∷ [])
      (aging_badge "> 90 Hari (Macet)" "Tertunggak > 3 bulan"
        "bg-rose-50 text-rose-700 border-rose-200")

-- `formatReportTypeName`
unfoldable pub format_report_type_name : String → String
format_report_type_name type =
    switch type
      (("cash_flow", "Laporan Arus Kas (Cash Flow)")
        ∷ ("receivables_aging", "Laporan Umur Piutang (Aging Receivables)")
        ∷ ("expense_summary", "Ringkasan Beban & Pengeluaran (Expense Summary)")
        ∷ ("income_statement", "Laba Rugi Operasional (Income Statement)")
        ∷ ("full_ledger", "Buku Besar Lengkap (Full Ledger)")
        ∷ [])
      type
