-- ===== src/Examples/SignIn.antt =====
-- The sign-in pages, the settings of the user, and the invitations.
use lapor_kos.Prelude.{
  String, ◌≡◌, refl, true, false, none, some, List, [], ◌∷◌, ◌==◌, if◌then◌else◌,
}
use lapor_kos.Api.Request.{Outcome, returned, thrown, Response, Payload, other_json}
use lapor_kos.Browser.{Browser}
use lapor_kos.Middleware.{cookie_token, middleware, next, is_auth_path}
use lapor_kos.Invitations.Chars.{chars}
use lapor_kos.Invitations.Page.{InvitationsPage, Delivery, whatsapp, create}
use lapor_kos.Invitations.Page.Laws.{Creates, create_lem}
use lapor_kos.Settings
use lapor_kos.Settings.{
  ProfileData, Settings, light, no_password, profile_of, user_fetched, save_profile, profile_saved,
}
use lapor_kos.Settings.Laws.{World}
use lapor_kos.SignIn.{LoginForm, LoginPage, login_schema, submit_login}
use lapor_kos.SignIn.Laws.{token_after, submit_login-middleware}
use lapor_kos.Auth.{get_token, is_authenticated}
use lapor_kos.SignIn.Recovery.{
  AuthCall, forgot_password, verify_otp, reset_password, AuthServer, done, Tab, open_verify,
  open_reset, submit_forgot, submit_otp, submit_reset, ResetPasswordForm,
}
use lapor_kos.SignIn.Recovery.Laws.{
  Reach, fresh, step, forgot, opened_verify, entered, opened_reset, reset, AreProven, resets_proven,
}

abbrev same_text : String → String
same_text s = s

abbrev window : Browser
window = record {
  has_window = true;
  local_storage = λ k. none;
  session_storage = λ k. none;
  cookies = λ k. none;
  is_https = true;
  pathname = "/login";
}

abbrev sign_in : LoginForm
sign_in = record { email = "ani@kos.id"; password = "rahasia"; remember = true }

abbrev empty_page : LoginPage
empty_page = record { error = none; success = none; is_loading = false; pushed = none }

login_schema_test : login_schema (λ s. true) sign_in ≡ true
unfolding login_schema
login_schema_test = refl

rooms_open : is_auth_path "/rooms" ≡ false
unfolding is_auth_path
rooms_open = refl

abbrev signed : String → String → Response
signed email password = record {
  status = 200;
  json_body = other_json;
  text_body = returned "";
  content_length = none;
  includes_json = true;
}

abbrev token_of : Payload → Outcome String
token_of payload = returned "t"

submit_login-middleware_example :
    let (s', b') =
      submit_login (λ s. true) same_text token_of signed sign_in (empty_page, window) in
    (s'.pushed ≡ some "/")
    × (s'.error ≡ none)
    × (get_token b' ≡ token_after true none "t")
    × (is_authenticated b' ≡ true)
    × (middleware (cookie_token same_text b') "/" ≡ next)
    × (middleware (cookie_token same_text b') "/rooms" ≡ next)
submit_login-middleware_example =
    submit_login-middleware (λ s. true) same_text same_text token_of signed sign_in empty_page
      window "t" "/rooms" login_schema_test refl refl (λ e. cc) refl refl rooms_open

-- The server knows one code.
abbrev one_code : AuthServer
one_code calls (forgot_password email) = returned done
one_code calls (verify_otp email otp) = if otp == "123456" then returned done else thrown "salah"
one_code calls (reset_password email otp new_password) = returned done

abbrev new_tab : Tab
new_tab = record { session = λ k. none; email = none; otp = none; error = none; pushed = none }

abbrev new_password : ResetPasswordForm
new_password = record { new_password = "rahasia12"; confirm_password = "rahasia12" }

abbrev asked : Tab × List AuthCall
asked = submit_forgot (λ s. true) "ani@kos.id" one_code [] new_tab

abbrev typed : Tab × List AuthCall
typed = submit_otp "123456" one_code asked.1 (open_verify asked.0)

abbrev ended : Tab × List AuthCall
ended = submit_reset new_password one_code typed.1 (open_reset typed.0)

ended_calls :
    ended.1
    ≡ reset_password "ani@kos.id" "123456" "rahasia12"
      ∷ verify_otp "ani@kos.id" "123456"
      ∷ forgot_password "ani@kos.id"
      ∷ []
unfolding submit_forgot open_verify submit_otp open_reset submit_reset
ended_calls = refl

ended_Reach : Reach (λ s. true) one_code ended
ended_Reach =
    step
      (step
        (step
          (step (step (fresh new_tab refl refl) (forgot "ani@kos.id" new_tab []))
            (opened_verify asked.0 asked.1))
          (entered "123456" (open_verify asked.0) asked.1))
        (opened_reset typed.0 typed.1))
      (reset new_password (open_reset typed.0) typed.1)

resets_proven_example : AreProven one_code ended.1
resets_proven_example = resets_proven (λ s. true) one_code ended ended_Reach

abbrev invitations : InvitationsPage
invitations = record {
  items = [];
  full_name = chars "Ani ";
  email_text = chars "ani@kos.id";
  phone = chars "+62 812-3456-7890";
  delivery_method = whatsapp;
  errors = record { full_name = none; email = none; phone = none };
  notice = none;
  pending_revoke = none;
  active_tab = none;
  search = [];
  is_form_open = true;
  current_page = 3;
  items_per_page = 5;
  total = 12;
  total_pages = 3;
}

abbrev sent : Delivery
sent = record { method = whatsapp; is_sent = true }

create_lem_example :
    Creates (returned sent) invitations (create (returned sent) (thrown "putus") invitations)
create_lem_example = create_lem (returned sent) (thrown "putus") invitations

abbrev unset : Settings
unset = record {
  profile_data = record { name = ""; email = ""; phone = "" };
  initial_profile_data = record { name = ""; email = ""; phone = "" };
  is_editing_profile = false;
  is_saving_profile = false;
  profile_message = none;
  password_data = no_password;
  is_editing_password = false;
  is_saving_password = false;
  password_message = none;
  theme = light;
}

-- The profile is loaded, edited, and sent.
abbrev loaded_world : World
loaded_world = record {
  page = user_fetched (some "Ani") none none unset;
  stored = profile_of (some "Ani") none none;
  pending = none;
}

abbrev renamed : ProfileData
renamed = record { name = "Ani S."; email = ""; phone = "" }

abbrev edited_world : World
edited_world = record loaded_world { page = record loaded_world.page { profile_data = renamed } }

abbrev sent_world : World
sent_world = record edited_world {
  page = (save_profile edited_world.page).0;
  pending = (save_profile edited_world.page).1;
}

abbrev saved_world : World
saved_world = record {
  page = profile_saved renamed sent_world.page;
  stored = renamed;
  pending = none;
}
