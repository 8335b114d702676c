-- ===== src/Forms.antt =====
-- The dialogs of the features: frontend/src/features/*/components.
pub mod Preview
pub mod Transfer
pub mod Settlement
pub mod Inspection
pub mod Permit
use Prim.Native.Char.{code}
use lapor_kos.Prelude.{
  String, ℕ, ◌+◌, Bool, true, false, ◌&&◌, Option, none, some, ◌==◌, if◌then◌else◌,
}
use lapor_kos.Api.Request.{Outcome, returned, thrown}
use lapor_kos.Tenants.{or_text}
use lapor_kos.Invitations.Chars.{is_space}

trim_start : String → String
trim_start String.[] = ""
trim_start (String.◌∷◌ c s) =
    let rest = trim_start s in if is_space (code c) then rest else String.◌∷◌ c s

trim_end : String → String
trim_end String.[] = ""
trim_end (String.◌∷◌ c s) =
    let rest = trim_end s in if is_space (code c) && rest == "" then "" else String.◌∷◌ c rest

-- `s.trim()`
unfoldable pub trim_text : String → String
unfolding trim_start trim_end
trim_text s = trim_end (trim_start s)

-- `!s.trim()`
abbrev pub is_blank : String → Bool
is_blank s = trim_text s == ""

-- `err.message || fallback`
abbrev pub message_or : String → String → String
message_or message fallback = or_text (some message) fallback

-- What a dialog that submits shows, and whether it has called `onClose` (after `onSuccess`,
-- where the dialog has one to call).
pub record Submission : Type 0 where
  pub busy : Bool
  pub error : Option String
  pub done : Bool

-- A check before the submission fails.
abbrev pub refused : String → Submission → Submission
refused message s = record s { error = some message }

-- The `try` is over, after `busy` was set and the error cleared; the text of an error is `read` off
-- what was thrown.
abbrev pub finished : {A : Type 0} → (String → String) → Outcome A → Submission → Submission
finished read (returned a) s = record s { busy = false; error = none; done = true }
finished read (thrown message) s = record s { busy = false; error = some (read message) }

-- `err instanceof Error ? err.message : fallback`, of the errors that `apiFetch` throws.
abbrev pub own_message : String → String
own_message message = message

-- `length`, of a text whose characters are of one code unit each.
abbrev pub text_length : String → ℕ
text_length String.[] = 0
text_length (String.◌∷◌ c s) = text_length s + 1
