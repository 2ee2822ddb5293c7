-- ===== src/Contract/Captcha.antt =====
-- A captcha from Google's reply to the call that it guards: server/server/handler.recaptcha.go,
-- app/src/components/Application.js and app/src/components/Login.js.
use mc_gatekeeper.Prelude.{ℕ, ◌≤◌, Bool, some, ◌≡◌}
use mc_gatekeeper.Js.{Value, bool, get, Outcome, fulfilled, rejected}
use mc_gatekeeper.Page.{call}
use mc_gatekeeper.Server.Recaptcha.{RecaptchaResponse, failed, result}
use mc_gatekeeper.Application
use mc_gatekeeper.Login

-- How the promise settles for a response: the JSON of the result arrives, and axios rejects the
-- other statuses.
pub data Settles : RecaptchaResponse → Outcome → Type 0 where
  resolves :
      (success : Bool) (body : Value)
      → get body "success" ≡ some (bool success)
      → Settles (result success) (fulfilled 200 body)
  rejects : (status : ℕ) → 300 ≤ status → Settles (failed status) (rejected (some status))

-- What each page does with a captcha that is solved, or is not.
abbrev pub Passes : Outcome → Application.AppPage → Login.LoginPage → Type 0
Passes o form page =
    (Application.on_verify_settled o form
      ≡ call (Application.create_request (Application.new_request form.state)) form)
    × (Login.on_verify_settled o page
        ≡ call (Login.log_in page.state.username page.state.password) page)

abbrev pub Stops : Outcome → Application.AppPage → Login.LoginPage → Type 0
Stops o form page =
    (Application.on_verify_settled o form ≡ form) × (Login.on_verify_settled o page ≡ page)
