-- ===== src/Contract/SignIn.antt =====
-- Logging in, from the credentials to the dashboard: app/src/components/Login.js, `HandleAdminSignin`
-- and app/src/components/Dashboard/landing.
use mc_gatekeeper.Prelude.{
  ℕ, ◌+◌, ◌/◌, ◌≤◌, String, Bool, true, false, ◌==◌, nat_eq, Option, none, some, [], ◌∷◌, ◌≡◌, ◌⊎◌,
  refl, sym, ◌∙◌, inl, inr, arith, Bool-cases, Option-cases, eq_iff,
}
use mathlib.Core.Bool.{true≢false}
use mc_gatekeeper.Js.Text.{to_text}
use mc_gatekeeper.Js.{Value, str, get, truthy, Outcome, fulfilled, rejected}
use mc_gatekeeper.Server.Auth.{
  Credentials, SigninResponse, bare, issued, second, expiration_time, are_admin,
  handle_admin_signin,
}
use mc_gatekeeper.Login.{LoginPage, on_logged_in}
use mc_gatekeeper.Login.Tokens.{on_logged_in-opened}
use mc_gatekeeper.Dashboard.Landing
use mc_gatekeeper.Dashboard.Landing.Step
use Prim.Native.String.{◌++◌}

-- How the promise settles for a response: the JSON of the token arrives, and axios rejects the
-- other statuses.
pub data Settles : SigninResponse → Outcome → Type 0 where
  resolves :
      (value : String) (expires : ℕ) (body token : Value)
      → get body "token" ≡ some token
      → truthy token ≡ true
      → get token "value" ≡ some (str value)
      → Settles (issued value expires) (fulfilled 200 body)
  rejects : (status : ℕ) → 300 ≤ status → Settles (bare status) (rejected (some status))

-- What is documented of the tokens: the middleware accepts one until its expiry.
abbrev pub IsJwt : (String → ℕ → Option String) → (String → ℕ → Bool) → Type 0
IsJwt sign accepts =
    (username token : String) (expires now : ℕ)
    → sign username expires ≡ some token
    → now / second ≤ expires
    → accepts ("Bearer " ++ token) now ≡ true

-- The dashboard is opened: its call for the requests has a header that the server accepts for an
-- hour, in nanoseconds.
abbrev pub IsSignedIn : (String → ℕ → Bool) → ℕ → LoginPage → LoginPage → Type 0
IsSignedIn accepts now p q =
    (header : String) × (q.pushed ≡ "/dashboard" ∷ p.pushed)
    × ((Landing.Step.opened q.token).pending ≡ Landing.get_all_requests header ∷ [])
    × ((later : ℕ) → later ≤ now + 3600000000000 → accepts header later ≡ true)

abbrev pub IsTurnedAway : LoginPage → LoginPage → Type 0
IsTurnedAway p q = (q.pushed ≡ p.pushed) × (q.token ≡ p.token)

turned_away :
    (status : ℕ) (o : Outcome) (p : LoginPage)
    → Settles (bare status) o
    → IsTurnedAway p (on_logged_in o p)
unfolding on_logged_in
turned_away _ _ p (rejects status high) = elim (Bool-cases (nat_eq status 401)) [
  | inl e ↦ rw e (refl, refl)
  | inr e ↦ rw e (refl, refl)
]

module _ (admin : Credentials) (sign : String → ℕ → Option String) (accepts : String → ℕ → Bool)
    (jwt : IsJwt sign accepts) where
  accepted :
      (creds : Credentials) (token : String) (now later : ℕ)
      → sign creds.username (expiration_time now / second) ≡ some token
      → later ≤ now + 3600000000000
      → accepts ("Bearer " ++ token) later ≡ true
  accepted creds token now later signed early =
      jwt creds.username token (expiration_time now / second) later signed (omega (arith, early))

  signed_in :
      (creds : Credentials) (token : String) (now : ℕ) (o : Outcome) (p : LoginPage)
      → sign creds.username (expiration_time now / second) ≡ some token
      → Settles (issued token (expiration_time now)) o
      → IsSignedIn accepts now p (on_logged_in o p)
  unfolding to_text
  signed_in creds _ now _ p signed (resolves value _ body token brought holds named) =
      let (opened, call, stays) =
        on_logged_in-opened body token (str value) p brought holds named in
      ("Bearer " ++ value, opened, call, λ later early. accepted creds value now later signed early)

  same_credentials :
      (creds : Credentials)
      → are_admin admin creds ≡ true
      → (creds.username ≡ admin.username) × (creds.password ≡ admin.password)
  same_credentials creds e = elim (Bool-cases (creds.username == admin.username)) [
    | inr n ↦ absurd (true≢false (sym e ∙ simp n refl))
    | inl n ↦ (
      (eq_iff creds.username admin.username).0 n,
      (eq_iff creds.password admin.password).0 (simp n at e),
    )
  ]

  -- Where the server answers a login with the credentials of the admin, and can sign a token, the
  -- dashboard is opened, and its call for the requests has a header that the server accepts for an
  -- hour; otherwise the credentials are not the admin's or no token was signed, the page stays, and
  -- the stored token is as before.
  pub on_logged_in-handle_admin_signin :
      (creds : Credentials) (now : ℕ) (o : Outcome) (p : LoginPage)
      → Settles (handle_admin_signin admin sign now (some creds)) o
      → let q = on_logged_in o p in
        ((creds.username ≡ admin.username)
          × (creds.password ≡ admin.password)
          × IsSignedIn accepts now p q)
        ⊎ (((are_admin admin creds ≡ false)
              ⊎ (sign creds.username (expiration_time now / second) ≡ none))
            × IsTurnedAway p q)
  unfolding handle_admin_signin
  on_logged_in-handle_admin_signin creds now o p settled =
      elim (Bool-cases (are_admin admin creds)) [
        | inr wrong ↦
            inr (inl wrong, turned_away 401 o p (simp (wrong, handle_admin_signin) at settled))
        | inl right ↦ elim (Option-cases (sign creds.username (expiration_time now / second))) [
          | inl unsigned ↦
              let refused = simp (right, unsigned, handle_admin_signin) at settled in
              inr (inr unsigned, turned_away 500 o p refused)
          | inr (token, signed) ↦
              let (name, secret) = same_credentials creds right in
              let granted = simp (right, signed, handle_admin_signin) at settled in
              inl (name, secret, signed_in creds token now o p signed granted)
        ]
      ]
