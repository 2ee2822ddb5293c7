-- ===== src/Login.antt =====
-- app/src/components/Login.js: the page on which an op logs in. The browser refuses to submit the
-- form while a field is blank; a run may submit it then too.
mod Captcha
pub mod Tokens
mod Tests
use mc_gatekeeper.Prelude.{
  ℕ, ◌-◌, String, Bool, true, false, ltb, ◌==◌, ◌||◌, nat_eq, Option, none, some, List, [], ◌∷◌,
  any, take_at, if◌then◌else◌, ◌▷◌,
}
use mc_gatekeeper.Js.{Value, get, truthy, Outcome, fulfilled, rejected}
use mc_gatekeeper.Page.{Page, mount, call, alert, push, set_state, settle, execute, stored_token}
use mc_gatekeeper.Jsx.{Node, text, prop, flag, on, element, nil, leaf, ◌⊹◌, live}

pub record State : Type 0 where
  pub username : String
  pub password : String

abbrev pub initial : State
initial = record { username = ""; password = "" }

-- What `verify` and `login` are given.
pub data Call : Type 0 where
  verify : Value → Call
  log_in : String → String → Call

abbrev pub LoginPage : Type 0
LoginPage = Page State Call Outcome

pub data Input : Type 0 where
  username password : Input

-- `onChange`
unfoldable pub on_change : Input → String → LoginPage → LoginPage
on_change username v p = p ▷ set_state λ s. record s { username = v }
on_change password v p = p ▷ set_state λ s. record s { password = v }

-- `login`
unfoldable pub login : LoginPage → LoginPage
login p = execute p

-- `onResolved`, up to its first promise.
unfoldable pub on_resolved : Value → LoginPage → LoginPage
on_resolved response p = p ▷ call (verify response)

-- The callback of `RecaptchaService.verify`; there is no `catch`.
unfoldable pub on_verify_settled : Outcome → LoginPage → LoginPage
on_verify_settled (fulfilled status body) p =
    if nat_eq status 200
    then elim (get body "success") [
      | none ↦ p
      | some success ↦
          if truthy success then p ▷ call (log_in p.state.username p.state.password) else p
    ]
    else p
on_verify_settled (rejected response) p = p

-- The callbacks of `AuthService.login`. `localStorage` holds the token from then on.
unfoldable pub on_logged_in : Outcome → LoginPage → LoginPage
on_logged_in (fulfilled status body) p =
    if nat_eq status 200
    then elim (get body "token") [
      | none ↦ p
      | some token ↦ record p { token = some token } ▷ push "/dashboard"
    ]
    else p
on_logged_in (rejected none) p = p
on_logged_in (rejected (some status)) p =
    if nat_eq status 401
    then p ▷ alert "Wrong credentials" ▷ set_state (λ s. record s { username = ""; password = "" })
    else p

pub data Handler : Type 0 where
  change : Input → Handler
  submit : Handler

abbrev Tree : Type 0
Tree = Node Handler

module _ (t : String → String) where
  abbrev text_field : Input → String → String → String → String → Tree
  text_field i kind label name value = leaf "TextField" (
      prop "type" kind
      ∷ prop "label" (t label)
      ∷ flag "fullWidth" true
      ∷ prop "margin" "normal"
      ∷ prop "name" name
      ∷ prop "value" value
      ∷ on "onChange" (change i)
      ∷ flag "required" true
      ∷ [])

  abbrev form : State → Tree
  form s = element "form" (on "onSubmit" submit ∷ []) (
      element "Typography" (prop "variant" "h4" ∷ []) nil
      ⊹ text_field username "text" "Login.Username" "username" s.username
      ⊹ text_field password "password" "Login.Password" "password" s.password
      ⊹ element "Button"
          (prop "variant" "contained" ∷ prop "color" "secondary" ∷ prop "type" "submit" ∷ [])
          (text (t "Login.Button") ⊹ nil)
      ⊹ nil)

  abbrev page : State → Tree
  page s = element "Container" [] (
      element "Typography" (prop "variant" "h5" ∷ []) (text (t "Login.Title") ⊹ nil)
      ⊹ form s
      ⊹ leaf "Recaptcha" []
      ⊹ nil)

  -- `render`, with `renderRedirect`: a stored token that does not parse throws.
  unfoldable pub render : Option Value → State → Option Tree
  render token s = elim (stored_token token) [
    | none ↦ none
    | some v ↦
        if truthy v
        then some (element "div" [] (leaf "Redirect" (prop "to" "/dashboard" ∷ []) ⊹ page s ⊹ nil))
        else some (element "div" [] (page s ⊹ nil))
  ]

abbrev same_handler : Handler → Handler → Bool
same_handler (change username) (change username) = true
same_handler (change password) (change password) = true
same_handler submit submit = true
same_handler _ _ = false

abbrev reach : Option Tree → List Handler
reach none = []
reach (some tree) = live tree

unfoldable pub dispatch : Handler → String → LoginPage → LoginPage
dispatch (change i) v p = on_change i v p
dispatch submit v p = login p

-- The callbacks of each promise.
unfoldable pub resume : Call → Outcome → LoginPage → LoginPage
resume (verify response) o p = on_verify_settled o p
resume (log_in name secret) o p = on_logged_in o p

-- `fire h v`: the user sets off a handler, with the input's value; `solved response`: an open
-- challenge resolves; `answer i o`: the i-th promise in flight settles.
pub data Event : Type 0 where
  fire : Handler → String → Event
  solved : Value → Event
  answer : ℕ → Outcome → Event

module _ (t : String → String) where
  unfoldable pub step : Event → LoginPage → LoginPage
  unfolding take_at
  step (fire h v) p =
      if any (same_handler h) (reach (render t p.token p.state)) then dispatch h v p else p
  step (solved response) p =
      if ltb 0 p.challenges
      then on_resolved response (record p { challenges = p.challenges - 1 })
      else p
  step (answer i o) p = elim (take_at i p.pending) [
    | none ↦ p
    | some (c, rest) ↦ resume c o (p ▷ settle c o rest)
  ]

  unfoldable pub run : List Event → LoginPage → LoginPage
  run [] p = p
  run (e ∷ es) p = run es (step e p)
