-- ===== src/Format/Audit.antt =====
-- frontend/src/features/audit/format.ts
use Prim.Native.Char.{code}
use lapor_kos.Prelude.{String, ◌∷◌, [], eqb, switch, if◌then◌else◌}
use lapor_kos.Format.Badges.{ClassBadge, class_badge}

-- `formatEntityType`
unfoldable pub format_entity_type : String → String
format_entity_type entity_type =
    switch entity_type
      (("payment", "Pembayaran")
        ∷ ("expense", "Pengeluaran")
        ∷ ("period_close", "Periode Buku")
        ∷ ("adjustment", "Penyesuaian")
        ∷ ("invoice", "Tagihan / Invoice")
        ∷ ("settlement", "Penyelesaian Akhir")
        ∷ [])
      entity_type

-- `.replace(/_/g, ' ')`
spaced : String → String
spaced String.[] = ""
spaced (String.◌∷◌ c s) =
    let rest = spaced s in if eqb (code c) b'_' then String.◌∷◌ " " rest else String.◌∷◌ c rest

-- `to_upper` is `toUpperCase`.
unfoldable pub format_audit_action : (String → String) → String → String
unfolding spaced
format_audit_action to_upper action =
    switch action
      (("payment_verify", "Verifikasi Pembayaran")
        ∷ ("payment_paid", "Verifikasi Pembayaran")
        ∷ ("payment_reject", "Penolakan Pembayaran")
        ∷ ("payment_rejected", "Penolakan Pembayaran")
        ∷ ("period_close", "Tutup Buku Periode")
        ∷ ("period_reopen", "Buka Kembali Buku")
        ∷ ("adjustment_create", "Pengajuan Penyesuaian")
        ∷ ("adjustment_approved", "Persetujuan Penyesuaian")
        ∷ ("adjustment_approve", "Persetujuan Penyesuaian")
        ∷ ("adjustment_rejected", "Penolakan Penyesuaian")
        ∷ ("adjustment_reject", "Penolakan Penyesuaian")
        ∷ ("expense_create", "Pencatatan Biaya")
        ∷ ("expense_approve", "Persetujuan Biaya")
        ∷ ("expense_pay", "Pembayaran Pengeluaran")
        ∷ ("expense_delete", "Penghapusan Biaya")
        ∷ [])
      (to_upper (spaced action))

-- `to_lower` is `toLowerCase`.
unfoldable pub get_health_badge : (String → String) → (String → String) → String → ClassBadge
get_health_badge to_lower to_upper status =
    let ready = class_badge "SEHAT (READY)" "bg-emerald-50 text-emerald-700 border-emerald-200" in
    let degraded = class_badge "DEGRADED" "bg-amber-50 text-amber-700 border-amber-200" in
    let down = class_badge "TIDAK SEHAT (DOWN)" "bg-rose-50 text-rose-700 border-rose-200" in
    switch (to_lower status)
      (("ready", ready)
        ∷ ("connected", ready)
        ∷ ("healthy", ready)
        ∷ ("up", ready)
        ∷ ("degraded", degraded)
        ∷ ("unhealthy", down)
        ∷ ("error", down)
        ∷ ("down", down)
        ∷ [])
      (class_badge (to_upper status) "bg-slate-50 text-slate-700 border-slate-200")
