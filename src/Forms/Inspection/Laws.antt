-- ===== src/Forms/Inspection/Laws.antt =====
-- How the costs of an inspection follow its list.
use lapor_kos.Prelude.{
  String, ℕ, zero, suc, ◌+◌, ◌-◌, ◌*◌, ◌≡◌, refl, Option, none, some, List, [], ◌∷◌, ◌++◌, arith,
  sym, ◌∙◌, Bool-cases, inl, inr,
}
use lapor_kos.Forms.{is_blank, trim_text}
use lapor_kos.Dashboard.Revenue.Laws.{sum, sum_from-sum}
use lapor_kos.Forms.Inspection.{
  Item, Reading, repair_cost_minor, new_item, InspectionForm, handle_item_change, handle_add_item,
  handle_remove_item, total_damage_cost, total_utility_cost, inspection_request,
}

-- The cost of the row at an index, which is 0 behind the last row.
abbrev pub cost_at : ℕ → List Item → ℕ
cost_at index [] = 0
cost_at zero (i ∷ items) = i.repair_cost_minor
cost_at (suc index) (i ∷ items) = cost_at index items

abbrev cost_sum : List Item → ℕ
cost_sum items = sum (λ i. i.repair_cost_minor) items

remove-sum :
    (index : ℕ) (items : List Item)
    → cost_sum (handle_remove_item index items) + cost_at index items ≡ cost_sum items
unfolding handle_remove_item
remove-sum index [] = refl
remove-sum zero (i ∷ items) = omega arith
remove-sum (suc index) (i ∷ items) = omega (arith, remove-sum index items)

append-sum :
    (items : List Item) (i : Item)
    → cost_sum (items ++ (i ∷ [])) ≡ cost_sum items + i.repair_cost_minor
append-sum [] i = omega arith
append-sum (j ∷ items) i = omega (arith, append-sum items i)

add-sum :
    (name : String) (items : List Item) → cost_sum (handle_add_item name items).0 ≡ cost_sum items
unfolding handle_add_item
add-sum name items = elim (Bool-cases (is_blank name)) [
  | inl blank ↦ rw blank refl
  | inr typed ↦ rw typed (omega (arith, append-sum items (new_item (trim_text name))))
]

change-sum :
    (index cost : ℕ) (items : List Item)
    → cost_at index (handle_item_change index (repair_cost_minor cost) items) + (cost_sum items)
      ≡ cost_sum (handle_item_change index (repair_cost_minor cost) items) + cost_at index items
unfolding handle_item_change
change-sum index cost [] = refl
change-sum zero cost (i ∷ items) = omega arith
change-sum (suc index) cost (i ∷ items) = omega (arith, change-sum index cost items)

total-sum : (items : List Item) → total_damage_cost items ≡ cost_sum items
unfolding total_damage_cost
total-sum items = omega (arith, sum_from-sum (λ i. i.repair_cost_minor) 0 items)

-- The total of the damages follows the list: a row that is taken out takes its cost with it, a new
-- row costs nothing yet, and a changed cost changes the total by the difference.
pub total_damage_cost-changes :
    (index cost : ℕ) (name : String) (items : List Item)
    → let changed = handle_item_change index (repair_cost_minor cost) items in
      (total_damage_cost (handle_remove_item index items) + cost_at index items
        ≡ total_damage_cost items)
      × (total_damage_cost (handle_add_item name items).0 ≡ total_damage_cost items)
      × (cost_at index changed + total_damage_cost items
          ≡ total_damage_cost changed + cost_at index items)
total_damage_cost-changes index cost name items =
    let changed = handle_item_change index (repair_cost_minor cost) items in
    (
      omega (
        arith,
        total-sum items,
        total-sum (handle_remove_item index items),
        remove-sum index items,
      ),
      total-sum (handle_add_item name items).0 ∙ add-sum name items ∙ sym (total-sum items),
      omega (arith, total-sum items, total-sum changed, change-sum index cost items),
    )

-- The costs of the readings that are sent.
abbrev pub sent_cost : Option Reading → ℕ
sent_cost none = 0
sent_cost (some r) = (r.current_value - r.previous_value) * r.unit_price_minor

-- The utilities that the dialog shows are those of the readings that it sends.
pub total_utility_cost-sent :
    (f : InspectionForm)
    → let req = inspection_request f in
      total_utility_cost f.electricity f.water
      ≡ sent_cost req.electricity_reading + sent_cost req.water_reading
unfolding total_utility_cost inspection_request
total_utility_cost-sent f = ground arith
