-- ===== src/Notifications/Laws.antt =====
-- What the bell and the preferences do.
use lapor_kos.Prelude.{
  String, ◌-◌, ◌≡◌, ◌≢◌, refl, true, false, not, ◌||◌, List, [], ◌∷◌, ◌++◌, ◌==◌, arith, eq_iff,
  includes, map, All, truthy, Bool-cases, inl, inr,
}
use lapor_kos.Api.Request.{Outcome, returned}
use lapor_kos.Dashboard.Laws.{includes-filter}
use lapor_kos.Notifications.{Notification, Bell, read_one, handle_item_click, handle_toggle_opt_out}

includes-append :
    (xs : List String) (c d : String) → includes (xs ++ (c ∷ [])) d ≡ (includes xs d || c == d)
includes-append [] c d = ground arith
includes-append (x ∷ xs) c d = ground (arith, includes-append xs c d)

-- The button of a category turns the choice for it over, and leaves every other category as it was.
pub handle_toggle_opt_out_lem :
    (category other : String) (opted_out : List String)
    → (includes (handle_toggle_opt_out category opted_out) category
        ≡ not (includes opted_out category))
      × (other ≢ category
          → includes (handle_toggle_opt_out category opted_out) other ≡ includes opted_out other)
unfolding handle_toggle_opt_out
handle_toggle_opt_out_lem category other opted_out = ground (
  arith,
  includes-filter category category opted_out,
  includes-filter category other opted_out,
  includes-append opted_out category category,
  includes-append opted_out category other,
  eq_iff category category,
  eq_iff other category,
  eq_iff category other,
)

-- No notification of the list that has the id is unread.
abbrev pub IsRead : String → List Notification → Type 0
IsRead id ns = All (λ n. n.id ≡ id → n.is_read ≡ true) ns

read_one-IsRead : (id : String) (ns : List Notification) → IsRead id (map (read_one id) ns)
read_one-IsRead id [] = tt
read_one-IsRead id (n ∷ ns) = (ground (arith, eq_iff n.id id), read_one-IsRead id ns)

-- A click on an unread notification that the server takes lowers the count by one, down to 0, and
-- marks the notification in the list; a click on a read one changes neither the count nor the list,
-- whatever the server would have said; and both lead to the link of the notification, if it has one.
pub handle_item_click_lem :
    {J : Type 0} (n : Notification) (a : J) (o : Outcome J) (b : Bell)
    → let (read, opened) = handle_item_click (record n { is_read = false }) (returned a) b in
      let (again, reopened) = handle_item_click (record n { is_read = true }) o b in
      (read.unread_count ≡ b.unread_count - 1)
      × IsRead n.id read.recent
      × (again.unread_count ≡ b.unread_count)
      × (again.recent ≡ b.recent)
      × (opened ≡ reopened)
unfolding handle_item_click
handle_item_click_lem n a o b = elim (Bool-cases (truthy n.action_url)) [
  | inl linked ↦ rw linked (refl, read_one-IsRead n.id b.recent, refl, refl, refl)
  | inr plain ↦ rw plain (refl, read_one-IsRead n.id b.recent, refl, refl, refl)
]
