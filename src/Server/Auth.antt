-- ===== src/Server/Auth.antt =====
-- server/server/handler.auth.go: `HandleAdminSignin`. A time is a number of nanoseconds; `sign` is
-- `SignedString` of the claims for a username and an expiry in seconds.
use mc_gatekeeper.Prelude.{
  ℕ, ◌+◌, ◌*◌, ◌/◌, String, Bool, not, ◌&&◌, ◌==◌, Option, none, some, if◌then◌else◌,
}

pub record Credentials : Type 0 where
  pub username : String
  pub password : String

-- A bare status, or 200 with a token and its expiry.
pub data SigninResponse : Type 0 where
  bare : ℕ → SigninResponse
  issued : String → ℕ → SigninResponse

abbrev pub second : ℕ
second = 1000000000

abbrev pub expiration_time : ℕ → ℕ
expiration_time now = now + 60 * 60 * second

-- The check of the credentials against the configured ones.
abbrev pub are_admin : Credentials → Credentials → Bool
are_admin admin creds = creds.username == admin.username && creds.password == admin.password

-- `HandleAdminSignin`, for the credentials that the body decodes to
unfoldable pub handle_admin_signin :
    Credentials → (String → ℕ → Option String) → ℕ → Option Credentials → SigninResponse
handle_admin_signin admin sign now none = bare 400
handle_admin_signin admin sign now (some creds) =
    if not (are_admin admin creds)
    then bare 401
    else elim (sign creds.username (expiration_time now / second)) [
      | none ↦ bare 500
      | some token ↦ issued token (expiration_time now)
    ]
