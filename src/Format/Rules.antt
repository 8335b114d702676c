-- ===== src/Format/Rules.antt =====
-- frontend/src/features/rules/format.ts
use lapor_kos.Prelude.{String, Option, some, [], ◌∷◌, switch, lookup, or_else, get_or}
use lapor_kos.Format.Badges.{color_badge, ColorBadge}

-- `getCategoryColor`
unfoldable pub get_category_color : String → String
get_category_color category =
    switch category
      (("keamanan", "text-blue-700 bg-blue-50 border-blue-200")
        ∷ ("kebersihan", "text-emerald-700 bg-emerald-50 border-emerald-200")
        ∷ ("fasilitas", "text-amber-700 bg-amber-50 border-amber-200")
        ∷ ("pembayaran", "text-rose-700 bg-rose-50 border-rose-200")
        ∷ ("ketertiban", "text-indigo-700 bg-indigo-50 border-indigo-200")
        ∷ ("tamu", "text-purple-700 bg-purple-50 border-purple-200")
        ∷ ("umum", "text-teal-700 bg-teal-50 border-teal-200")
        ∷ [])
      ("text-teal-700 bg-teal-50 border-teal-200")

-- `getSeverityBadge`
unfoldable pub get_severity_badge : String → ColorBadge
get_severity_badge severity =
    switch severity
      (("critical", color_badge "Kritis" "bg-red-100 text-red-800 border-red-300")
        ∷ ("major", color_badge "Penting" "bg-amber-100 text-amber-800 border-amber-300")
        ∷ ("standard", color_badge "Standar" "bg-sky-100 text-sky-800 border-sky-300")
        ∷ ("minor", color_badge "Ringan" "bg-slate-100 text-slate-700 border-slate-300")
        ∷ [])
      (color_badge "Ringan" "bg-slate-100 text-slate-700 border-slate-300")

-- `getVersionStatusBadge`
unfoldable pub get_version_status_badge : String → ColorBadge
get_version_status_badge status =
    switch status
      ((
        "published",
        color_badge "Aktif / Diterbitkan" "bg-emerald-100 text-emerald-800 border-emerald-300",
      )
        ∷ ("draft", color_badge "Draft" "bg-amber-100 text-amber-800 border-amber-300")
        ∷ (
          "superseded",
          color_badge "Tergantikan (Histori)" "bg-slate-100 text-slate-700 border-slate-300",
        )
        ∷ ("archived", color_badge "Arsip" "bg-gray-100 text-gray-700 border-gray-300")
        ∷ [])
      (color_badge "Arsip" "bg-gray-100 text-gray-700 border-gray-300")

-- `CATEGORY_LABELS`
unfoldable pub category_labels : String → Option String
category_labels key = lookup key (
    ("keamanan", "Keamanan & Akses")
    ∷ ("kebersihan", "Kebersihan")
    ∷ ("fasilitas", "Fasilitas & Energi")
    ∷ ("pembayaran", "Keuangan & Pembayaran")
    ∷ ("ketertiban", "Ketertiban Lingkungan")
    ∷ ("tamu", "Tamu & Kunjungan")
    ∷ ("umum", "Ketentuan Umum")
    ∷ [])

-- `SEVERITY_LABELS`
unfoldable pub severity_labels : String → Option String
severity_labels key = lookup key (
    ("critical", "Kritis")
    ∷ ("major", "Penting")
    ∷ ("standard", "Standar")
    ∷ ("minor", "Ringan")
    ∷ [])

-- `VERSION_STATUS_LABELS`
unfoldable pub version_status_labels : String → Option String
version_status_labels key = lookup key (
    ("draft", "Draft")
    ∷ ("published", "Aktif / Berlaku")
    ∷ ("superseded", "Tergantikan (Histori)")
    ∷ ("archived", "Diarsipkan")
    ∷ [])

-- `getCategoryLabel`
pub get_category_label : String → String
get_category_label category = get_or (or_else (category_labels category) (some category)) ""
