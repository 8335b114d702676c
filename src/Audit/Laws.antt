-- ===== src/Audit/Laws.antt =====
-- The searches of the log, and the order of their answers.
use lapor_kos.Prelude.{ℕ, ◌≡◌, ◌≢◌, refl, sym, ap, true, false, some, ◌∷◌, arith, eqb}
use lapor_kos.Api.Request.{returned}
use lapor_kos.Audit.{
  AuditPage, financial, audit_filter, logs_answered, handle_search_submit, is_watched,
  reset_filters,
}

-- A search that is not made on the first page sends two queries, of the page that it is made on and of
-- the first; where the answers come in the other order, the log shows the page that was left, while
-- the page that is named is the first.
pub search_stale :
    (s : AuditPage) (a b : ℕ)
    → s.active_tab ≡ financial
    → s.current_page ≢ 1
    → let first = record (audit_filter s) { page = some 1 } in
      let searched = handle_search_submit s in
      let shown =
        logs_answered (audit_filter s) (returned a) (logs_answered first (returned b) searched) in
      (searched.pending ≡ first ∷ audit_filter s ∷ s.pending)
      × (shown.current_page ≡ 1)
      × (shown.answered_query ≡ some (audit_filter s))
unfolding handle_search_submit logs_answered
search_stale s a b tab page =
    let moved : eqb s.current_page 1 ≡ false = ground arith in
    rw moved (simp tab (refl, refl, refl))

-- The filters are cleared on the first page, with no entity and no action chosen: what is asked for is
-- what was searched before, and its answer is what stays in the log, under empty filters.
pub reset_stale :
    (s : AuditPage) (total : ℕ)
    → is_watched s ≡ false
    → let emptied = reset_filters s in
      let shown = logs_answered (audit_filter s) (returned total) emptied in
      (emptied.pending ≡ audit_filter s ∷ s.pending)
      × (shown.answered_query ≡ some (audit_filter s))
      × (shown.correlation_search ≡ "")
      × (shown.start_date ≡ "")
      × (shown.end_date ≡ "")
unfolding reset_filters logs_answered
reset_stale s total h = rw h (refl, refl, refl, refl, refl)

-- On the first page a search asks once, for what is typed.
pub search_first :
    (s : AuditPage)
    → s.current_page ≡ 1
    → let searched = handle_search_submit s in
      (searched.pending ≡ audit_filter s ∷ s.pending) × (audit_filter searched ≡ audit_filter s)
unfolding handle_search_submit
search_first s page =
    let first : eqb s.current_page 1 ≡ true = ground arith in
    rw first (refl, ap (λ n. record (audit_filter s) { page = some n }) (sym page))
