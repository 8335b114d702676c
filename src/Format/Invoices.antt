-- ===== src/Format/Invoices.antt =====
-- frontend/src/features/invoices/format.ts: the labels of invoices, objects indexed by any text.
use lapor_kos.Prelude.{String, [], ◌∷◌, Option, lookup}

-- `invoiceStatusLabel`
unfoldable pub invoice_status_label : String → Option String
invoice_status_label key = lookup key (
    ("draft", "Draf")
    ∷ ("issued", "Terbit")
    ∷ ("partially_paid", "Dibayar sebagian")
    ∷ ("paid", "Lunas")
    ∷ ("overdue", "Terlambat")
    ∷ ("void", "Dibatalkan")
    ∷ [])

-- `invoiceStatusTone`
unfoldable pub invoice_status_tone : String → Option String
invoice_status_tone key = lookup key (
    ("draft", "bg-slate-100 text-slate-700 border-slate-200")
    ∷ ("issued", "bg-sky-50 text-sky-800 border-sky-200")
    ∷ ("partially_paid", "bg-amber-50 text-amber-800 border-amber-200")
    ∷ ("paid", "bg-emerald-50 text-emerald-800 border-emerald-200")
    ∷ ("overdue", "bg-rose-50 text-rose-800 border-rose-200")
    ∷ ("void", "bg-slate-200 text-slate-600 border-slate-300")
    ∷ [])

-- `invoiceTypeLabel`
unfoldable pub invoice_type_label : String → Option String
invoice_type_label key = lookup key (
    ("initial", "Awal kontrak")
    ∷ ("recurring", "Rutin")
    ∷ ("final_settlement", "Penyelesaian akhir")
    ∷ ("adjustment", "Penyesuaian")
    ∷ ("late_fee", "Denda")
    ∷ ("legacy", "Histori lama")
    ∷ [])

-- `itemTypeLabel`
unfoldable pub item_type_label : String → Option String
item_type_label key = lookup key (
    ("rent", "Sewa kamar")
    ∷ ("electricity", "Listrik")
    ∷ ("water", "Air")
    ∷ ("utility_meter", "Meteran utility")
    ∷ ("one_off", "Biaya lain / Deposit")
    ∷ ("discount", "Diskon")
    ∷ ("credit", "Kredit")
    ∷ ("late_fee", "Denda keterlambatan")
    ∷ ("adjustment", "Penyesuaian")
    ∷ [])
