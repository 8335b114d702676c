-- ===== src/Invitations/Page/Places.antt =====
-- frontend/src/app/(dashboard)/tenants/invitations/page.tsx: the tabs, the search and the pages of the
-- list.
use lapor_kos.Prelude.{ℕ, ◌+◌, ◌-◌, Option, eqb, if◌then◌else◌}
use lapor_kos.Invitations.Chars.{Chars}
use lapor_kos.Invitations.Page.{InvitationStatus, InvitationsPage, page, min}
use lapor_kos.Rooms.Pages.{max}

-- The choices of the list, and its buttons, which are disabled at the ends.
unfoldable pub choose_tab : Option InvitationStatus → InvitationsPage → InvitationsPage
choose_tab tab s = record s { active_tab = tab; current_page = 1 }

unfoldable pub type_search : Chars → InvitationsPage → InvitationsPage
type_search text s = record s { search = text; current_page = 1 }

unfoldable pub resize : ℕ → InvitationsPage → InvitationsPage
resize n s = record s { items_per_page = n; current_page = 1 }

unfoldable pub previous : InvitationsPage → InvitationsPage
previous s = if eqb (page s) 1 then s else record s { current_page = max 1 (s.current_page - 1) }

unfoldable pub next : InvitationsPage → InvitationsPage
next s =
    if eqb (page s) s.total_pages
    then s
    else record s { current_page = min s.total_pages (s.current_page + 1) }
