-- ===== src/Rules.antt =====
-- frontend/src/app/(dashboard)/rules/page.tsx: the draft of the rules, its templates, and how it is
-- saved and published. `to_iso` is `new Date(text).toISOString()`, which throws on what is no date.
-- What `loadActiveRules` brings is left out: it catches what its call throws.
pub mod Laws
use lapor_kos.Prelude.{
  String, ℕ, Bool, true, false, not, Option, none, some, List, [], ◌∷◌, ◌==◌, ◌+◌, map, filter,
  if◌then◌else◌,
}
use lapor_kos.Api.Request.{Outcome, returned, thrown}
use lapor_kos.Api.Action.{Action, Server, pure, ask, attempt, ◌>>=◌}
use lapor_kos.Calls.Rules.{
  RuleCall, fetch_rule_templates, fetch_active_rules, save_draft_rules, publish_rule_version,
}
use lapor_kos.Forms.{trim_text}
use lapor_kos.Tenants.{or_text}

pub record RuleItem : Type 0 where
  pub category : String
  pub title : String
  pub description : String
  pub details : List String
  pub severity : String
  pub order_index : ℕ
  pub penalty_description : String

pub record Template : Type 0 where
  pub category : String
  pub title : String
  pub description : String
  pub details : List String
  pub severity : String

pub data Payload : Type 0 where
  draft : (title description change_summary : String) (items : List RuleItem) → Payload
  release : (effective_from : Option String) (change_summary : String) → Payload

-- What is looked at of an answer: the id of the draft that is saved, and the templates.
pub record Answer : Type 0 where
  pub id : String
  pub templates : List Template

abbrev pub RuleServer : Type 0
RuleServer = Server (RuleCall Payload) Answer

abbrev pub RuleAction : Type 0 → Type 0
RuleAction A = Action (RuleCall Payload) Answer A

pub record RulesPage : Type 0 where
  pub draft_title : String
  pub draft_description : String
  pub draft_summary : String
  pub draft_items : List RuleItem
  pub draft_error : Option String
  pub is_saving_draft : Bool
  pub is_draft_modal_open : Bool
  pub publish_effective_date : String
  pub publish_change_summary : String
  pub publish_error : Option String
  pub is_publishing : Bool
  pub is_publish_modal_open : Bool

-- `details.map((d) => d.trim()).filter((d) => d !== '')`
abbrev pub kept_details : List String → List String
kept_details details = filter (λ d. not (d == "")) (map trim_text details)

-- The items as they are sent, the first with this index.
abbrev pub items_from : ℕ → List RuleItem → List RuleItem
items_from idx [] = []
items_from idx (item ∷ items) =
    record item { order_index = idx + 1; details = kept_details item.details }
    ∷ items_from (idx + 1) items

unfoldable pub sent_items : List RuleItem → List RuleItem
sent_items items = items_from 0 items

abbrev pub draft_of : String → RulesPage → Payload
draft_of summary s =
    draft (trim_text s.draft_title) (trim_text s.draft_description) (trim_text summary)
      (sent_items s.draft_items)

-- `loadActiveRules`
abbrev pub load_active : RuleAction (Outcome Answer)
load_active = attempt (ask fetch_active_rules)

-- The `try` of `handleSaveDraft`.
abbrev pub save : RulesPage → RuleAction (Outcome Answer)
save s = do saved ← ask (save_draft_rules (draft_of s.draft_summary s)); load_active

abbrev saved_draft : Outcome (Outcome Answer) → RulesPage → RulesPage
saved_draft (returned a) s = record s { is_draft_modal_open = false; is_saving_draft = false }
saved_draft (thrown message) s = record s { draft_error = some message; is_saving_draft = false }

abbrev pub RuleHandler : Type 0
RuleHandler = RuleServer → List (RuleCall Payload) → RulesPage → RulesPage × List (RuleCall Payload)

-- `handleSaveDraft`
unfoldable pub handle_save_draft : RuleHandler
handle_save_draft server calls s = elim s.draft_items [
  | [] ↦ (record s { draft_error = some "Peraturan harus memiliki minimal 1 butir aturan." }, calls)
  | item ∷ items ↦
      let (o, calls') = save s server calls in
      (saved_draft o (record s { draft_error = none }), calls')
]

-- `handleOpenPublish`, today.
unfoldable pub handle_open_publish : String → RulesPage → RulesPage
handle_open_publish today s = record s {
  publish_error = none;
  publish_effective_date = today;
  publish_change_summary = or_text (some s.draft_summary) "Pembaruan versi peraturan kos resmi.";
  is_publish_modal_open = true;
}

-- `publishEffectiveDate ? ... : undefined`
abbrev pub effective_from : (String → Outcome String) → String → Outcome (Option String)
effective_from to_iso date = if date == "" then returned none else elim (to_iso date) [
  | returned text ↦ returned (some text)
  | thrown message ↦ thrown message
]

-- The second half of the `try` of `handleExecutePublish`, after the draft is saved.
abbrev pub release_saved :
    Outcome (Option String) → String → RulesPage → RuleAction (Outcome Answer)
release_saved (thrown message) id s server calls = (thrown message, calls)
release_saved (returned date) id s server calls =
    (ask (publish_rule_version id (release date (trim_text s.publish_change_summary))) >>= λ a.
    load_active)
      server calls

-- The `try` of `handleExecutePublish`.
abbrev pub publish : (String → Outcome String) → RulesPage → RuleAction (Outcome Answer)
publish to_iso s = do
  saved ← ask (save_draft_rules (draft_of s.publish_change_summary s))
  release_saved (effective_from to_iso s.publish_effective_date) saved.id s

abbrev published : Outcome (Outcome Answer) → RulesPage → RulesPage
published (returned a) s = record s {
  is_publish_modal_open = false;
  is_draft_modal_open = false;
  is_publishing = false;
}
published (thrown message) s = record s { publish_error = some message; is_publishing = false }

-- `handleExecutePublish`
unfoldable pub handle_execute_publish : (String → Outcome String) → RuleHandler
handle_execute_publish to_iso server calls s =
    let (o, calls') = publish to_iso s server calls in
    (published o (record s { publish_error = none }), calls')

-- The items of the templates, the first with this index.
abbrev pub templated : ℕ → List Template → List RuleItem
templated idx [] = []
templated idx (t ∷ templates) =
    record {
      category = t.category;
      title = t.title;
      description = t.description;
      details = t.details;
      severity = t.severity;
      order_index = idx + 1;
      penalty_description = "";
    }
    ∷ templated (idx + 1) templates

abbrev from_templates : List Template → RulesPage → RulesPage
from_templates [] s = s
from_templates (t ∷ templates) s = record s {
  draft_items = templated 0 (t ∷ templates);
  draft_error = none;
}

abbrev loaded_templates : Outcome Answer → RulesPage → RulesPage
loaded_templates (returned a) s = from_templates a.templates s
loaded_templates (thrown m) s = record s { draft_error = some "Gagal memuat template standar." }

-- `handleLoadFromTemplate`
unfoldable pub handle_load_from_template : RuleHandler
handle_load_from_template server calls s =
    let (o, calls') = ask fetch_rule_templates server calls in (loaded_templates o s, calls')
