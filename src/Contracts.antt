-- ===== src/Contracts.antt =====
-- frontend/src/features/contracts/types.ts and frontend/src/app/(dashboard)/contracts/[id]/page.tsx:
-- the states of a contract, what the owner may change them to, and the page of one contract.
pub mod Laws
use lapor_kos.Prelude.{
  String, Bool, true, false, not, ◌&&◌, ◌||◌, Option, none, some, List, [], ◌∷◌, ◌^^◌, ◌==◌,
  if◌then◌else◌,
}
use lapor_kos.Api.Request.{Outcome, returned, thrown}
use lapor_kos.Calls.{Call, call, with_method, with_body, scoped, Fields, flag_field}

pub data ContractStatus : Type 0 where
  draft pending_tenant scheduled active ended terminated renewed cancelled : ContractStatus

unfoldable pub status_labels : ContractStatus → String
status_labels draft = "Draft"
status_labels pending_tenant = "Menunggu tenant"
status_labels scheduled = "Terjadwal"
status_labels active = "Aktif"
status_labels ended = "Berakhir"
status_labels terminated = "Dihentikan"
status_labels renewed = "Diperpanjang"
status_labels cancelled = "Dibatalkan"

unfoldable pub owner_transitions : ContractStatus → List ContractStatus
owner_transitions draft = pending_tenant ∷ cancelled ∷ []
owner_transitions pending_tenant = cancelled ∷ []
owner_transitions scheduled = active ∷ cancelled ∷ []
owner_transitions active = ended ∷ terminated ∷ []
owner_transitions ended = []
owner_transitions terminated = []
owner_transitions renewed = []
owner_transitions cancelled = []

-- Which buttons the page shows.
unfoldable pub can_amend : Bool → ContractStatus → Bool
can_amend can_write draft = can_write
can_amend can_write pending_tenant = can_write
can_amend can_write scheduled = can_write
can_amend can_write active = can_write
can_amend can_write _ = false

unfoldable pub can_renew : Bool → ContractStatus → Bool
can_renew can_write active = can_write
can_renew can_write _ = false

unfoldable pub can_accept : Bool → ContractStatus → Bool
can_accept is_tenant pending_tenant = is_tenant
can_accept is_tenant _ = false

-- The targets that are offered, one button for each.
unfoldable pub offered : Bool → ContractStatus → List ContractStatus
unfolding owner_transitions
offered can_write status = if can_write then owner_transitions status else []

-- The cells of the page; `D` is what is known of a contract.
pub record ContractPage (D : Type 0) : Type 0 where
  pub contract : Option D
  pub loading : Bool
  pub busy : Bool
  pub has_dialog : Bool
  pub error : String
  pub notice : String

-- `load`'s call.
unfoldable pub load_call : Bool → String → Call
load_call is_tenant id =
    scoped (not is_tenant)
      (call (if is_tenant then "/api/contracts/" ^^ id ^^ "/review" else "/api/contracts/" ^^ id))

unfoldable pub accept_call : (Fields → String) → String → Bool → Call
accept_call stringify id policy_accepted =
    with_body (stringify (("policy_accepted", flag_field policy_accepted) ∷ []))
      (scoped false (with_method "POST" (call ("/api/contracts/" ^^ id ^^ "/accept"))))

unfoldable pub publish_call : String → Call
publish_call id = with_method "POST" (call ("/api/contracts/" ^^ id ^^ "/documents"))

unfoldable pub download_call : Bool → String → String → Call
download_call is_tenant id document_id = scoped (not is_tenant) (
    call (
      if is_tenant
      then "/api/contracts/" ^^ id ^^ "/review/documents/" ^^ document_id
      else "/api/contracts/" ^^ id ^^ "/documents/" ^^ document_id))

module _ {D : Type 0} where
  abbrev loaded : Outcome D → ContractPage D → ContractPage D
  loaded (returned d) p = record p { contract = some d; loading = false; error = "" }
  loaded (thrown message) p = record p { loading = false; error = message }

  -- `load`, with the answer of its call. Without an id it does nothing.
  unfoldable pub load : String → Outcome D → ContractPage D → ContractPage D
  load id o p = if id == "" then p else loaded o p

  -- `run`, with what its action comes to and the answer that the page is loaded with after it.
  unfoldable pub run :
      {A : Type 0} → String → String → Outcome A → Outcome D → ContractPage D → ContractPage D
  unfolding load
  run id success (returned a) o p =
      record (load id o (record p { has_dialog = false; error = ""; notice = success })) {
        busy = false;
      }
  run id success (thrown message) o p = record p { busy = false; error = message; notice = "" }
