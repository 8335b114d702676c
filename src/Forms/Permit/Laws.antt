-- ===== src/Forms/Permit/Laws.antt =====
-- Which visits a tenant may ask for.
use lapor_kos.Prelude.{
  String, ◌+◌, ◌*◌, ◌≡◌, ◌≢◌, ◌<◌, ◌≤◌, ◌↔◌, true, false, none, some, Option, arith, eq_iff,
}
use lapor_kos.Forms.{is_blank}
use lapor_kos.Forms.Permit.{LocalTime, PermitForm, permit_error}

-- The texts that must be filled in are.
abbrev pub IsFilled : PermitForm → Type 0
IsFilled f =
    (is_blank f.guest_name ≡ false)
    × (is_blank f.purpose ≡ false)
    × (f.start_time ≢ "")
    × (f.end_time ≢ "")

-- A request whose texts are filled in and whose times are valid passes the checks exactly if it ends
-- after it begins and, without a night, ends by 22:00 on the same day of a month, whichever month
-- that is, and with one, lasts at most 73 hours.
pub permit_error-none_iff :
    (parse : String → Option LocalTime) (f : PermitForm) (start end : LocalTime)
    → IsFilled f
    → end.minutes < 60
    → parse f.start_time ≡ some start
    → parse f.end_time ≡ some end
    → (permit_error parse f ≡ none) ↔ (
        (start.time < end.time)
        × (f.is_overnight ≡ false
            → (end.hours * 60 + end.minutes ≤ 22 * 60) × (end.date ≡ start.date))
        × (f.is_overnight ≡ true → end.time ≤ start.time + 73 * 3600000))
unfolding permit_error
permit_error-none_iff parse f start end (named, told, begins, ends) clock e e' =
    ground (arith, e, e', eq_iff f.start_time "", eq_iff f.end_time "")
