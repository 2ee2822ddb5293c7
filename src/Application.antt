-- ===== src/Application.antt =====
-- app/src/components/Application.js: the state, the instance's messages and the handlers.
-- `t` is `i18next.t` under the language in use. `this.recaptcha` is a counter of open challenges.
pub mod View
pub mod Step
pub mod Username
pub mod Submission
pub mod Answers
pub mod Wedged
mod Tests
use mc_gatekeeper.Prelude.{
  ℕ, ◌+◌, String, Bool, true, false, not, ◌&&◌, ◌||◌, ◌==◌, nat_eq, leb, Option, none, some,
  if◌then◌else◌, ◌▷◌,
}
use mc_gatekeeper.Js.{Value, get, first, truthy, is_str, ◌>>=◌, Outcome, fulfilled, rejected}
unfoldable pub use mc_gatekeeper.Js.Text.{is_blank}
use mc_gatekeeper.Page.{Page, call, execute}

pub record State : Type 0 where
  pub email : String
  pub username : String
  pub gender : String
  pub age : String
  pub application_text : String
  pub error_msg : String
  pub success : Bool
  pub is_open : Bool
  pub verified : Bool
  pub loading : Bool

abbrev pub initial : State
initial = record {
  email = "";
  username = "";
  gender = "male";
  age = "";
  application_text = "";
  error_msg = "";
  success = false;
  is_open = false;
  verified = false;
  loading = false;
}

-- The `name` attribute of each input that `handleInputChange` serves.
pub data Name : Type 0 where
  email username gender age application_text : Name

-- What `createRequest` is given. `age` is still the text that `parseInt` reads.
pub record NewRequest : Type 0 where
  pub email : String
  pub username : String
  pub gender : String
  pub age : String
  pub application_text : String

-- The promises, each with what its callbacks have in their closures.
pub data Call : Type 0 where
  verify : Value → Call
  create_request : NewRequest → Call
  get_skin_image : String → Call
  get_qr_code_content : String → Value → Call

abbrev pub AppPage : Type 0
AppPage = Page State Call Outcome

abbrev pub verification_qrcode_content : String
verification_qrcode_content = "verified"

-- `setState` renders, and a render with an error message starts a timer.
abbrev pub set_state : (State → State) → AppPage → AppPage
set_state f p =
    let s = f p.state in
    record p { state = s; timers = (if s.error_msg == "" then p.timers else p.timers + 1) }

-- `handleInputChange`
unfoldable pub handle_input_change : Name → String → AppPage → AppPage
handle_input_change email v p = p ▷ set_state λ s. record s { email = v }
handle_input_change username v p = p ▷ set_state λ s. record s { username = v }
handle_input_change gender v p = p ▷ set_state λ s. record s { gender = v }
handle_input_change age v p = p ▷ set_state λ s. record s { age = v }
handle_input_change application_text v p = p ▷ set_state λ s. record s { application_text = v }

unfoldable pub on_toggle : AppPage → AppPage
on_toggle p = p ▷ set_state λ s. record s { is_open = not s.is_open }

-- `onSubmit`. Whether `reset` keeps an earlier challenge from resolving is left open: it may.
unfoldable pub on_submit : AppPage → AppPage
on_submit p = execute p

-- `onResolved`: its first statement, up to the first promise.
unfoldable pub on_resolved : Value → AppPage → AppPage
on_resolved response p = p ▷ call (verify response)

-- `res.data.skin.url`
unfoldable pub read_skin_url : Value → Option Value
read_skin_url body = get body "skin" >>= λ skin. get skin "url"

-- `res.data[0].symbol[0]`, its `error` and its `data`
pub record Symbol : Type 0 where
  pub error : Value
  pub content : Value

unfoldable pub read_symbol : Value → Option Symbol
read_symbol body = do
  entry ← first body
  symbols ← get entry "symbol"
  symbol ← first symbols
  error ← get symbol "error"
  content ← get symbol "data"
  some (record { error = error; content = content })

-- `!symbol.error` and `symbol.data === this.VERIFICATION_QRCODE_CONTENT`
unfoldable pub is_verification : Symbol → Bool
is_verification symbol =
    not (truthy symbol.error) && is_str symbol.content verification_qrcode_content

-- The object that `onResolved` builds from the state for `createRequest`.
abbrev pub new_request : State → NewRequest
new_request s = record {
  email = s.email;
  username = s.username;
  gender = s.gender;
  age = s.age;
  application_text = s.application_text;
}

-- The first callback of `onResolved`: `createRequest` if the captcha is accepted. A body without
-- fields throws, which nothing catches.
unfoldable pub on_verify_settled : Outcome → AppPage → AppPage
on_verify_settled (fulfilled status body) p =
    if nat_eq status 200
    then elim (get body "success") [
      | none ↦ p
      | some success ↦ if truthy success then p ▷ call (create_request (new_request p.state)) else p
    ]
    else p
on_verify_settled (rejected response) p = p

-- The constructor's messages and the handlers that show them.
module _ (t : String → String) where
  abbrev pub err_skin_not_found : String
  err_skin_not_found = t "Splash.SkinNotFoundErrMsg"

  abbrev pub err_skin_not_match : String
  err_skin_not_match = t "Splash.SkinNotMatchErrMsg"

  abbrev pub err_verification : String
  err_verification = t "Splash.VerificationErrMsg"

  abbrev pub err_rate_limit : String
  err_rate_limit = t "Splash.RateLimitErrMsg"

  abbrev pub err_invalid_username : String
  err_invalid_username = t "Splash.InvalidUsernameErrMsg"

  abbrev pub err_empty_username : String
  err_empty_username = t "Splash.EmptyUsernameErrMsg"

  abbrev pub err_repeat_request : String
  err_repeat_request = t "Splash.RepeatRequestErrMsg"

  abbrev pub err_banned : String
  err_banned =
      "Sorry. The user is been banned from the server. Try to contact server admins for details"

  abbrev pub err_already_approved : String
  err_already_approved = t "Splash.RequestAlreadyApprovedErrMsg"

  abbrev pub err_internal : String
  err_internal = t "Splash.SubmissionInternalErrMsg"

  -- The two callbacks of `createRequest`.
  unfoldable pub on_created : Outcome → AppPage → AppPage
  on_created (fulfilled status body) p =
      if nat_eq status 201 then p ▷ set_state (λ s. record s { success = true }) else p
  on_created (rejected none) p = p
  on_created (rejected (some status)) p =
      if nat_eq status 422
      then p ▷ set_state (λ s. record s { error_msg = err_repeat_request })
      else if nat_eq status 409
      then p ▷ set_state (λ s. record s { error_msg = err_already_approved })
      else if nat_eq status 403
      then p ▷ set_state (λ s. record s { error_msg = err_banned })
      else if nat_eq status 500
      then p ▷ set_state (λ s. record s { error_msg = err_internal })
      else p

  -- `onVerifyUsername`: its two calls of `setState` in one event render once.
  unfoldable pub on_verify_username : AppPage → AppPage
  on_verify_username p =
      if is_blank p.state.username
      then p ▷ set_state (λ s. record s { loading = true; error_msg = err_empty_username })
      else p ▷ set_state (λ s. record s { loading = true }) ▷ call (get_skin_image p.state.username)

  -- The `catch` of `getSkinImage`; `none` is an error without a response.
  unfoldable pub skin_failed : Option ℕ → AppPage → AppPage
  skin_failed none p = p ▷ set_state λ s. record s { loading = false }
  skin_failed (some status) p =
      p
      ▷ set_state (λ s. record s {
        error_msg =
            (if nat_eq status 429
              then err_rate_limit
              else if nat_eq status 400
              then err_invalid_username
              else err_verification);
      })
      ▷ set_state (λ s. record s { loading = false })

  -- The callbacks of `getSkinImage`; a TypeError in the first is caught by the second.
  unfoldable pub on_skin_image : String → Outcome → AppPage → AppPage
  on_skin_image name (fulfilled status body) p =
      if nat_eq status 200
      then elim (read_skin_url body) [
        | none ↦ skin_failed none p
        | some url ↦
            if truthy url
            then p ▷ call (get_qr_code_content name url)
            else p ▷ set_state (λ s. record s { error_msg = err_skin_not_found })
      ]
      else p
  on_skin_image name (rejected response) p = skin_failed response p

  -- The `catch` of `getQRCodeContent`.
  unfoldable pub qr_failed : AppPage → AppPage
  qr_failed p =
      p
      ▷ set_state (λ s. record s { error_msg = err_verification })
      ▷ set_state (λ s. record s { loading = false })

  -- The callbacks of `getQRCodeContent`.
  unfoldable pub on_qr_code : Outcome → AppPage → AppPage
  on_qr_code (fulfilled status body) p = elim (read_symbol body) [
    | none ↦ qr_failed p
    | some symbol ↦
        p
        ▷ (if is_verification symbol
            then set_state (λ s. record s { verified = true })
            else set_state (λ s. record s { error_msg = err_skin_not_match }))
        ▷ set_state (λ s. record s { loading = false })
  ]
  on_qr_code (rejected response) p = qr_failed p

-- The callback of the timer that a render starts.
unfoldable pub on_timeout : AppPage → AppPage
on_timeout p = p ▷ set_state λ s. record s { error_msg = "" }
