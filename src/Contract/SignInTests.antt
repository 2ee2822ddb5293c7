-- ===== src/Contract/SignInTests.antt =====
-- A login with the right credentials; one token is signed.
use mc_gatekeeper.Prelude.{
  ℕ, ◌/◌, String, Bool, false, ◌==◌, Option, none, some, ◌≡◌, ◌⊎◌, refl, sym, ap, inl, inr,
  Bool-cases, if◌then◌else◌,
}
use mathlib.Core.Option.{some-injective, some-ne-none}
use mc_gatekeeper.Js.{Value, str, obj, field, end, fulfilled}
use mc_gatekeeper.Page.{mount}
use mc_gatekeeper.Server.Auth.{Credentials, second, expiration_time, are_admin, handle_admin_signin}
use mc_gatekeeper.Login.{initial, on_logged_in}
use mc_gatekeeper.Contract.SignIn.{
  Settles, resolves, IsJwt, IsSignedIn, IsTurnedAway, on_logged_in-handle_admin_signin,
}
use Prim.Native.String.{◌++◌}

abbrev admin : Credentials
admin = record { username = "admin"; password = "secret" }

abbrev sign : String → ℕ → Option String
sign username expires = if username == "admin" then some "jwt" else none

abbrev accepts : String → ℕ → Bool
accepts header now = header == "Bearer jwt"

signed-IsJwt : IsJwt sign accepts
signed-IsJwt username token expires now signed early = elim (Bool-cases (username == "admin")) [
  | inl e ↦
      let same = some-injective _ _ (rw e at signed) in
      ap (λ t. ("Bearer " ++ t) == "Bearer jwt") (sym same)
  | inr e ↦ absurd (some-ne-none _ (sym (rw e at signed)))
]

abbrev body : Value
body = obj (field "token" (obj (field "value" (str "jwt") end)) end)

body-Settles : Settles (handle_admin_signin admin sign 5 (some admin)) (fulfilled 200 body)
unfolding handle_admin_signin
body-Settles =
    resolves "jwt" (expiration_time 5) body (obj (field "value" (str "jwt") end)) refl refl refl

on_logged_in-handle_admin_signin_example :
    let q = on_logged_in (fulfilled 200 body) (mount initial) in
    ((admin.username ≡ admin.username)
      × (admin.password ≡ admin.password)
      × IsSignedIn accepts 5 (mount initial) q)
    ⊎ (((are_admin admin admin ≡ false) ⊎ (sign admin.username (expiration_time 5 / second) ≡ none))
        × IsTurnedAway (mount initial) q)
on_logged_in-handle_admin_signin_example =
    on_logged_in-handle_admin_signin admin sign accepts signed-IsJwt admin 5 (fulfilled 200 body)
      (mount initial) body-Settles
