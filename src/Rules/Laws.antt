-- ===== src/Rules/Laws.antt =====
-- What is saved and published of the rules.
use lapor_kos.Prelude.{
  String, ℕ, zero, suc, ◌≡◌, refl, ap, true, false, not, Option, none, some, List, [], ◌∷◌, ◌==◌,
  ◌+◌, map, length, All, All-filter,
}
use lapor_kos.Api.Request.{Outcome, returned, thrown}
use lapor_kos.Calls.Rules.{RuleCall, fetch_active_rules, save_draft_rules, publish_rule_version}
use lapor_kos.Forms.{trim_text}
use lapor_kos.Rules.{
  RuleItem, Payload, Answer, release, RuleServer, RulesPage, draft_of, items_from, sent_items,
  effective_from, handle_execute_publish,
}

abbrev pub numbers_from : ℕ → ℕ → List ℕ
numbers_from first zero = []
numbers_from first (suc n) = first ∷ numbers_from (first + 1) n

abbrev pub IsFilled : RuleItem → Type 0
IsFilled item = All (λ d. not (d == "") ≡ true) item.details

items_from-order :
    (idx : ℕ) (items : List RuleItem)
    → map (λ i. i.order_index) (items_from idx items) ≡ numbers_from (idx + 1) (length items)
items_from-order idx [] = refl
items_from-order idx (item ∷ items) = ap (λ t. (idx + 1) ∷ t) (items_from-order (idx + 1) items)

items_from-IsFilled : (idx : ℕ) (items : List RuleItem) → All IsFilled (items_from idx items)
items_from-IsFilled idx [] = tt
items_from-IsFilled idx (item ∷ items) = (
  All-filter (λ d. not (d == "")) (map trim_text item.details),
  items_from-IsFilled (idx + 1) items,
)

-- The items that are sent are numbered from one without a gap, whatever their numbers were, and no
-- detail of theirs is empty.
pub sent_items_lem :
    (items : List RuleItem)
    → (map (λ i. i.order_index) (sent_items items) ≡ numbers_from 1 (length items))
      × All IsFilled (sent_items items)
unfolding sent_items
sent_items_lem items = (items_from-order 0 items, items_from-IsFilled 0 items)

-- A publication: the draft is saved first; where that throws, nothing else is sent, and the dialog
-- of the publication stays as it is, with the error. The id that is saved is the one that is
-- published, with the date that is chosen; where that throws, the dialog stays too, though the draft
-- is saved. Where both come back the rules are asked for again and both dialogs are closed.
pub publication :
    (to_iso : String → Outcome String) (server : RuleServer) (calls : List (RuleCall Payload))
    (s : RulesPage)
    → let first = save_draft_rules (draft_of s.publish_change_summary s) in
      let (s', calls') = handle_execute_publish to_iso server calls s in
      ((m : String)
        → server calls first ≡ thrown m
        → (calls' ≡ first ∷ calls)
          × (s'.publish_error ≡ some m)
          × (s'.is_publish_modal_open ≡ s.is_publish_modal_open))
      × ((a : Answer) (date : Option String)
          → server calls first ≡ returned a
          → effective_from to_iso s.publish_effective_date ≡ returned date
          → let second =
              publish_rule_version a.id (release date (trim_text s.publish_change_summary)) in
            ((m : String)
              → server (first ∷ calls) second ≡ thrown m
              → (calls' ≡ second ∷ first ∷ calls)
                × (s'.publish_error ≡ some m)
                × (s'.is_publish_modal_open ≡ s.is_publish_modal_open))
            × ((b : Answer)
                → server (first ∷ calls) second ≡ returned b
                → (calls' ≡ fetch_active_rules ∷ second ∷ first ∷ calls)
                  × (s'.publish_error ≡ none)
                  × (s'.is_publish_modal_open ≡ false)
                  × (s'.is_draft_modal_open ≡ false)))
unfolding handle_execute_publish
publication to_iso server calls s = (
  λ m e. rw e (refl, refl, refl),
  λ a date e d. (
    λ m f. rw e (rw d (rw f (refl, refl, refl))),
    λ b f. rw e (rw d (rw f (refl, refl, refl, refl))),
  ),
)
