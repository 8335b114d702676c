-- ===== src/Invitations/Activation/Laws.antt =====
-- What an activation sends.
use lapor_kos.Prelude.{◌≤◌, ◌≡◌, Bool, true, false, List, All, arith, length}
use lapor_kos.Api.Action.{Server}
use lapor_kos.Invitations.Chars.{is_empty}
use lapor_kos.Invitations.Activation.{
  Activation, ActivationRequest, SentPassword, password, existing_password, submit,
}

-- A password that a tenant may choose, or has chosen before.
abbrev pub IsSecret : SentPassword → Type 0
IsSecret (password p) = 8 ≤ length p
IsSecret (existing_password p) = is_empty p ≡ false

abbrev pub IsAgreed : ActivationRequest → Type 0
IsAgreed r = (r.policy_accepted ≡ true) × IsSecret r.secret

-- Every activation that is sent agrees to the policy and has one password: a new one of eight
-- characters or more, or one of an account that exists, which is not empty.
pub submit-IsAgreed :
    (server : Server ActivationRequest Bool) (calls : List ActivationRequest) (s : Activation)
    → All IsAgreed calls
    → All IsAgreed (submit server calls s).1
unfolding submit
submit-IsAgreed server calls s h = ground arith
