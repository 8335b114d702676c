-- ===== src/Format/Visitors.antt =====
-- frontend/src/features/guest-permits/format.ts: the badge of a visitor's permit, its vehicle and its
-- dates. `Date` and `Intl.DateTimeFormat` are parameters.
pub mod Status
pub mod Laws
use lapor_kos.Prelude.{
  String, Bool, not, ◌&&◌, ◌||◌, Option, none, some, [], ◌∷◌, ◌==◌, ◌^^◌, truthy, or_else, get_or,
  switch, lookup, if◌then◌else◌,
}
use lapor_kos.Format.Badges.{ClassBadge, class_badge}

-- The `switch` of `getVisitorStatusBadge`.
abbrev status_badge : String → ClassBadge
status_badge status =
    switch status
      ((
        "pending",
        class_badge "Menunggu Persetujuan"
            "bg-amber-500/10 text-amber-600 dark:text-amber-400 border-amber-500/20",
      )
        ∷ (
          "approved",
          class_badge "Disetujui"
              "bg-emerald-500/10 text-emerald-600 dark:text-emerald-400 border-emerald-500/20",
        )
        ∷ (
          "active",
          class_badge "Tamu di Lokasi (Aktif)"
              "bg-cyan-500/10 text-cyan-700 dark:text-cyan-400 border-cyan-500/20 font-medium",
        )
        ∷ (
          "completed",
          class_badge "Selesai (Checked Out)"
              "bg-slate-500/10 text-slate-600 dark:text-slate-400 border-slate-500/20",
        )
        ∷ (
          "rejected",
          class_badge "Ditolak" "bg-red-500/10 text-red-600 dark:text-red-400 border-red-500/20",
        )
        ∷ (
          "change_requested",
          class_badge "Perlu Revisi"
              "bg-orange-500/10 text-orange-600 dark:text-orange-400 border-orange-500/20",
        )
        ∷ (
          "cancelled",
          class_badge "Dibatalkan"
              "bg-zinc-500/10 text-zinc-600 dark:text-zinc-400 border-zinc-500/20",
        )
        ∷ ("expired", class_badge "Kedaluwarsa" "bg-gray-500/10 text-gray-500 border-gray-500/20")
        ∷ [])
      (class_badge status "bg-slate-500/10 text-slate-600 border-slate-500/20")

unfoldable pub get_visitor_status_badge : String → Bool → ClassBadge
get_visitor_status_badge status is_overstay =
    if status == "active" && is_overstay
    then class_badge "Overstay di Lokasi"
        "bg-rose-500/20 text-rose-700 dark:text-rose-400 border-rose-500/40 font-bold animate-pulse"
    else status_badge status

unfoldable pub format_vehicle : Option String → Option String → String
format_vehicle vehicle_type vehicle_number =
    let kind = get_or vehicle_type "" in
    let names =
      ("motor", "Sepeda Motor") ∷ ("mobil", "Mobil") ∷ ("lainnya", "Kendaraan Lain") ∷ [] in
    let label = get_or (or_else (lookup kind names) (some kind)) "" in
    if not (truthy vehicle_type) || kind == "tidak_ada"
    then "Tanpa Kendaraan"
    else if truthy vehicle_number
    then label ^^ " (" ^^ get_or vehicle_number "" ^^ ")"
    else label

-- `parse` gives no date where the source's is not valid.
pub format_date_range :
    {Date : Type 0}
    → (String → Option Date)
    → (Date → String)
    → Option String
    → Option String
    → Bool
    → String
format_date_range parse format start_str end_str is_overnight =
    let start = get_or start_str "" in
    let finish = get_or end_str "" in
    let badge = if is_overnight then " (Menginap)" else " (Kunjungan Hari Ini)" in
    if not (truthy start_str) || not (truthy end_str) then "-" else elim (parse start) [
      | none ↦ start ^^ " s/d " ^^ finish
      | some a ↦ elim (parse finish) [
        | none ↦ start ^^ " s/d " ^^ finish
        | some b ↦ format a ^^ " – " ^^ format b ^^ badge
      ]
    ]
