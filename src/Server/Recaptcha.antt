-- ===== src/Server/Recaptcha.antt =====
-- server/server/handler.recaptcha.go: the proxy to reCAPTCHA. `verified` is Google's reply to a
-- token, none where it cannot be had, and `decode` the field `success` of a reply, none where
-- `json.Unmarshal` fails.
use mc_gatekeeper.Prelude.{ℕ, String, Bool, not, Option, none, some, if◌then◌else◌}

-- A status with an error, or 200 with the result's `success`.
pub data RecaptchaResponse : Type 0 where
  failed : ℕ → RecaptchaResponse
  result : Bool → RecaptchaResponse

-- `check`
unfoldable pub check : (String → Option String) → (String → Option Bool) → String → Option Bool
check verified decode token = elim (verified token) [ none ↦ none | some body ↦ decode body ]

-- `handleVerifyRecaptcha`, for the token that the body decodes to. After an error of `check` the
-- JSON of an empty result follows in the body.
unfoldable pub handle_verify_recaptcha :
    (String → Option String) → (String → Option Bool) → Bool → Option String → RecaptchaResponse
unfolding check
handle_verify_recaptcha verified decode can_read_body request =
    if not can_read_body then failed 500 else elim request [
      | none ↦ failed 500
      | some token ↦ elim (check verified decode token) [
        | none ↦ failed 500
        | some success ↦ result success
      ]
    ]
