-- ===== src/SignIn/Recovery/Laws.antt =====
-- Which codes a password is set again with.
use lapor_kos.Prelude.{
  String, ◌≡◌, refl, Bool, true, Option, none, some, List, [], ◌∷◌, truthy, eqb, inl, inr,
  Bool-cases, ◌&&◌,
}
use lapor_kos.Api.Request.{returned}
use lapor_kos.Api.Action.{Outcome-cases}
use lapor_kos.Forms.{text_length}
use lapor_kos.SignIn.Recovery.{
  reset_password_schema, AuthCall, forgot_password, verify_otp, reset_password, AuthServer, Answer,
  Tab, otp_key, email_key, open_forgot, open_verify, open_reset, submit_forgot, submit_otp,
  submit_code, ResetPasswordForm, submit_reset, submit_new,
}

-- The server has accepted a code, for some email, among the calls.
pub data Accepted (server : AuthServer) (otp : String) : List AuthCall → Type 0 where
  here :
      (email : String) (before : List AuthCall) (a : Answer)
      → server before (verify_otp email otp) ≡ returned a
      → Accepted server otp (verify_otp email otp ∷ before)
  there :
      (call : AuthCall) (before : List AuthCall)
      → Accepted server otp before
      → Accepted server otp (call ∷ before)

-- Each call that sets a password has a code that was accepted before it.
abbrev pub AreProven : AuthServer → List AuthCall → Type 0
AreProven server [] = Unit {0}
AreProven server (reset_password email otp new_password ∷ before) =
    Accepted server otp before × AreProven server before
AreProven server (forgot_password email ∷ before) = AreProven server before
AreProven server (verify_otp email otp ∷ before) = AreProven server before

-- What the user does in a tab: a page is opened by its path at any time, or a form is submitted.
pub data Step (is_email : String → Bool) (server : AuthServer)
    : Tab × List AuthCall → Tab × List AuthCall → Type 0 where
  opened_forgot :
      (t : Tab) (calls : List AuthCall) → Step is_email server (t, calls) (open_forgot t, calls)
  opened_verify :
      (t : Tab) (calls : List AuthCall) → Step is_email server (t, calls) (open_verify t, calls)
  opened_reset :
      (t : Tab) (calls : List AuthCall) → Step is_email server (t, calls) (open_reset t, calls)
  forgot :
      (email : String) (t : Tab) (calls : List AuthCall)
      → Step is_email server (t, calls) (submit_forgot is_email email server calls t)
  entered :
      (otp : String) (t : Tab) (calls : List AuthCall)
      → Step is_email server (t, calls) (submit_otp otp server calls t)
  reset :
      (f : ResetPasswordForm) (t : Tab) (calls : List AuthCall)
      → Step is_email server (t, calls) (submit_reset f server calls t)

-- A tab begins with no code, and nothing was called.
pub data Reach (is_email : String → Bool) (server : AuthServer) : Tab × List AuthCall → Type 0 where
  fresh : (t : Tab) → t.session otp_key ≡ none → t.otp ≡ none → Reach is_email server (t, [])
  step :
      {w v : Tab × List AuthCall}
      → Reach is_email server w
      → Step is_email server w v
      → Reach is_email server v

-- A code, where there is one, was accepted.
abbrev Known : AuthServer → List AuthCall → Option String → Type 0
Known server calls none = Unit {0}
Known server calls (some otp) = Accepted server otp calls

abbrev IsProven : AuthServer → Tab × List AuthCall → Type 0
IsProven server (t, calls) =
    Known server calls (t.session otp_key) × Known server calls t.otp × AreProven server calls

Known-later :
    (server : AuthServer) (call : AuthCall) (calls : List AuthCall) (o : Option String)
    → Known server calls o
    → Known server (call ∷ calls) o
Known-later server call calls none k = tt
Known-later server call calls (some otp) k = there call calls k

forgot-IsProven :
    (is_email : String → Bool) (server : AuthServer) (email : String) (t : Tab)
    (calls : List AuthCall)
    → IsProven server (t, calls)
    → IsProven server (submit_forgot is_email email server calls t)
unfolding submit_forgot
forgot-IsProven is_email server email t calls (k, l, p) =
    let call = forgot_password email in
    let later = Known-later server call calls in
    elim (Bool-cases (is_email email)) [
      | inl good ↦ elim (Outcome-cases (server calls call)) [
        | inl (a, e) ↦ rw (good, e) (later (t.session otp_key) k, later t.otp l, p)
        | inr (m, e) ↦ rw (good, e) (later (t.session otp_key) k, later t.otp l, p)
      ]
      | inr bad ↦ rw bad (k, l, p)
    ]

code-IsProven :
    (server : AuthServer) (email : Option String) (otp : String) (t : Tab) (calls : List AuthCall)
    → IsProven server (t, calls)
    → IsProven server (submit_code email otp server calls t)
code-IsProven server none otp t calls proven = proven
code-IsProven server (some email) otp t calls (k, l, p) =
    let call = verify_otp email otp in
    let later = Known-later server call calls in
    elim (Bool-cases (eqb (text_length otp) 6)) [
      | inl long ↦ elim (Outcome-cases (server calls call)) [
        | inl (a, e) ↦ rw (long, e) (here email calls a e, later t.otp l, p)
        | inr (m, e) ↦ rw (long, e) (later (t.session otp_key) k, later t.otp l, p)
      ]
      | inr short ↦ rw short (k, l, p)
    ]

new-IsProven :
    (server : AuthServer) (email otp : Option String) (f : ResetPasswordForm) (t : Tab)
    (calls : List AuthCall)
    → Known server calls otp
    → IsProven server (t, calls)
    → IsProven server (submit_new email otp f server calls t)
new-IsProven server none none f t calls known proven = proven
new-IsProven server none (some otp) f t calls known proven = proven
new-IsProven server (some email) none f t calls known proven = proven
new-IsProven server (some email) (some otp) f t calls known (k, l, p) =
    let call = reset_password email otp f.new_password in
    let later = Known-later server call calls in
    elim (Bool-cases (reset_password_schema f)) [
      | inl good ↦ elim (Outcome-cases (server calls call)) [
        | inl (a, e) ↦ rw (good, e) (tt, later t.otp l, (known, p))
        | inr (m, e) ↦ rw (good, e) (later (t.session otp_key) k, later t.otp l, (known, p))
      ]
      | inr bad ↦ rw bad (k, l, p)
    ]

open_verify-IsProven :
    (server : AuthServer) (t : Tab) (calls : List AuthCall)
    → IsProven server (t, calls)
    → IsProven server (open_verify t, calls)
unfolding open_verify
open_verify-IsProven server t calls (k, l, p) = elim (Bool-cases (truthy (t.session email_key))) [
  | inl stored ↦ rw stored (k, tt, p)
  | inr missing ↦ rw missing (k, tt, p)
]

open_reset-IsProven :
    (server : AuthServer) (t : Tab) (calls : List AuthCall)
    → IsProven server (t, calls)
    → IsProven server (open_reset t, calls)
unfolding open_reset
open_reset-IsProven server t calls (k, l, p) =
    elim (Bool-cases (truthy (t.session email_key) && truthy (t.session otp_key))) [
      | inl stored ↦ rw stored (k, k, p)
      | inr missing ↦ rw missing (k, tt, p)
    ]

Step-IsProven :
    {is_email : String → Bool} {server : AuthServer} {w v : Tab × List AuthCall}
    → Step is_email server w v
    → IsProven server w
    → IsProven server v
unfolding open_forgot submit_otp submit_reset
Step-IsProven (opened_forgot t calls) (k, l, p) = (k, tt, p)
Step-IsProven {server = server} (opened_verify t calls) q = open_verify-IsProven server t calls q
Step-IsProven {server = server} (opened_reset t calls) q = open_reset-IsProven server t calls q
Step-IsProven {is_email = is_email} {server = server} (forgot email t calls) q =
    forgot-IsProven is_email server email t calls q
Step-IsProven {server = server} (entered otp t calls) q = code-IsProven server t.email otp t calls q
Step-IsProven {server = server} (reset f t calls) (k, l, p) =
    new-IsProven server t.email t.otp f t calls l (k, l, p)

Reach-IsProven :
    {is_email : String → Bool} {server : AuthServer} {w : Tab × List AuthCall}
    → Reach is_email server w
    → IsProven server w
Reach-IsProven (fresh t no_session no_otp) = rw (no_session, no_otp) (tt, tt, tt)
Reach-IsProven (step r s) = Step-IsProven s (Reach-IsProven r)

-- Whatever pages are opened and whatever is submitted, in any order, from a tab with no code: every
-- call that sets a password has a code that the server accepted in an earlier call.
pub resets_proven :
    (is_email : String → Bool) (server : AuthServer) (w : Tab × List AuthCall)
    → Reach is_email server w
    → AreProven server w.1
resets_proven is_email server w r = (Reach-IsProven r).2

-- A code is accepted for one email, and then another email asks for a code: the page of the new
-- password opens with the first code, and sends it for the other email.
pub reset_mixed :
    (is_email : String → Bool) (server : AuthServer) (calls : List AuthCall) (t : Tab)
    (other otp : String) (f : ResetPasswordForm) (a : Answer)
    → t.session otp_key ≡ some otp
    → truthy (some otp) ≡ true
    → truthy (some other) ≡ true
    → is_email other ≡ true
    → server calls (forgot_password other) ≡ returned a
    → reset_password_schema f ≡ true
    → let (t', calls') = submit_forgot is_email other server calls (open_forgot t) in
      let opened = open_reset t' in
      (opened.email ≡ some other)
      × (opened.otp ≡ some otp)
      × ((submit_reset f server calls' opened).1 ≡ reset_password other otp f.new_password ∷ calls')
unfolding submit_forgot open_forgot open_reset submit_reset
reset_mixed is_email server calls t other otp f a stored o n good ok fine =
    rw (good, ok) (simp (stored, o, n) (simp fine (refl, refl, refl)))
