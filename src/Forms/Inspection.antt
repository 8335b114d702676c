-- ===== src/Forms/Inspection.antt =====
-- frontend/src/features/checkouts/components/InspectionModal.tsx: the list of what was inspected,
-- the costs, and the submission. An index is that of a row of the list; prices and readings are
-- whole numbers.
pub mod Laws
use lapor_kos.Prelude.{
  String, ℕ, zero, suc, ◌+◌, ◌-◌, ◌*◌, Bool, Option, none, some, List, [], ◌∷◌, ◌++◌, map, get_or,
  ltb, if◌then◌else◌,
}
use lapor_kos.Api.Action.{Server, ask}
use lapor_kos.Calls.Checkouts.{CheckoutCall, record_inspections}
use lapor_kos.Dashboard.Revenue.{sum_from}
use lapor_kos.Forms.{Submission, trim_text, is_blank, finished, own_message}

pub record Item : Type 0 where
  pub item_name : String
  pub condition : String
  pub repair_cost_minor : ℕ
  pub photo_url : String
  pub notes : String

-- What an earlier inspection recorded.
pub record RecordedItem : Type 0 where
  pub item_name : String
  pub condition : String
  pub repair_cost_minor : ℕ
  pub photo_url : Option String
  pub notes : Option String

pub record Reading : Type 0 where
  pub previous_value : ℕ
  pub current_value : ℕ
  pub unit_price_minor : ℕ

abbrev default_asset_items : List String
default_asset_items =
    "Kasur & Ranjang" ∷ "AC & Remote AC" ∷ "Kunci Kamar & Pintu" ∷ "Kamar Mandi & Sanitasi"
    ∷ "Dinding & Kebersihan Cat" ∷ "Lemari Pakaian" ∷ "Jendela & Tirai" ∷ []

abbrev pub new_item : String → Item
new_item name = record {
  item_name = name;
  condition = "good";
  repair_cost_minor = 0;
  photo_url = "";
  notes = "";
}

abbrev of_recorded : RecordedItem → Item
of_recorded i = record {
  item_name = i.item_name;
  condition = i.condition;
  repair_cost_minor = i.repair_cost_minor;
  photo_url = get_or i.photo_url "";
  notes = get_or i.notes "";
}

-- The first value of `items`; no inspections and none yet are the same.
unfoldable pub initial_items : List RecordedItem → List Item
initial_items [] = map new_item default_asset_items
initial_items (i ∷ inspections) = map of_recorded (i ∷ inspections)

-- `[field]: value`
pub data Change : Type 0 where
  condition photo_url notes item_name : String → Change
  repair_cost_minor : ℕ → Change

abbrev pub change_item : Change → Item → Item
change_item (condition value) i = record i { condition = value }
change_item (photo_url value) i = record i { photo_url = value }
change_item (notes value) i = record i { notes = value }
change_item (item_name value) i = record i { item_name = value }
change_item (repair_cost_minor value) i = record i { repair_cost_minor = value }

unfoldable pub handle_item_change : ℕ → Change → List Item → List Item
handle_item_change index change [] = []
handle_item_change zero change (i ∷ items) = change_item change i ∷ items
handle_item_change (suc index) change (i ∷ items) = i ∷ handle_item_change index change items

-- With the name that is typed in, which is emptied.
unfoldable pub handle_add_item : String → List Item → List Item × String
handle_add_item new_item_name items =
    if is_blank new_item_name
    then (items, new_item_name)
    else (items ++ (new_item (trim_text new_item_name) ∷ []), "")

unfoldable pub handle_remove_item : ℕ → List Item → List Item
handle_remove_item index [] = []
handle_remove_item zero (i ∷ items) = items
handle_remove_item (suc index) (i ∷ items) = i ∷ handle_remove_item index items

unfoldable pub total_damage_cost : List Item → ℕ
total_damage_cost items = sum_from (λ i. i.repair_cost_minor) 0 items

-- `elecCost`, `waterCost`
abbrev pub reading_cost : Reading → ℕ
reading_cost r =
    if ltb r.previous_value r.current_value
    then (r.current_value - r.previous_value) * r.unit_price_minor
    else 0

unfoldable pub total_utility_cost : Reading → Reading → ℕ
total_utility_cost electricity water = reading_cost electricity + reading_cost water

pub record InspectionForm : Type 0 where
  pub items : List Item
  pub key_returned : Bool
  pub inspection_notes : String
  pub electricity : Reading
  pub water : Reading

pub record RecordInspectionRequest : Type 0 where
  pub items : List Item
  pub key_returned : Bool
  pub inspection_notes : String
  pub electricity_reading : Option Reading
  pub water_reading : Option Reading

-- A reading is sent where it has risen.
abbrev pub sent_reading : Reading → Option Reading
sent_reading r = if ltb r.previous_value r.current_value then some r else none

unfoldable pub inspection_request : InspectionForm → RecordInspectionRequest
inspection_request f = record {
  items = f.items;
  key_returned = f.key_returned;
  inspection_notes = trim_text f.inspection_notes;
  electricity_reading = sent_reading f.electricity;
  water_reading = sent_reading f.water;
}

unfoldable pub handle_submit :
    {C : Type 0}
    → String
    → InspectionForm
    → Server (CheckoutCall RecordInspectionRequest) C
    → List (CheckoutCall RecordInspectionRequest)
    → Submission
    → Submission × List (CheckoutCall RecordInspectionRequest)
handle_submit checkout_id f server calls s =
    let (o, calls') = ask (record_inspections checkout_id (inspection_request f)) server calls in
    (finished own_message o s, calls')
