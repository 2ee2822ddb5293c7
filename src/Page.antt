-- ===== src/Page.antt =====
-- A page of app/src: the state of the mounted React component beside what the browser keeps for it.
-- The event loop runs one callback at a time; what is in flight settles in any order.
use mc_gatekeeper.Prelude.{ℕ, ◌+◌, String, Option, none, some, List, [], ◌∷◌, ◌++◌}
use mc_gatekeeper.Js.{Value, undefined, null}

-- `S` is the component's state, `C` the data of its promises and `O` how they settle.
pub record Page (S C O : Type 0) : Type 0 where
  pub state : S
  pub pending : List C  -- promises that have not settled
  pub settled : List (C × O)  -- those that have, the latest first
  pub timers : ℕ  -- callbacks of `setTimeout` that have not run
  pub challenges : ℕ  -- calls of `recaptcha.execute` that have not resolved
  pub alerts : List String  -- the texts given to `alert`, the latest first
  pub pushed : List String  -- the paths given to `history.push`, the latest first
  pub token : Option Value  -- what `localStorage` holds under "token", parsed
  pub reloads : ℕ  -- calls of `window.location.reload`

module _ {S C O : Type 0} where
  abbrev pub mount : S → Page S C O
  mount s = record {
    state = s;
    pending = [];
    settled = [];
    timers = 0;
    challenges = 0;
    alerts = [];
    pushed = [];
    token = none;
    reloads = 0;
  }

  abbrev pub call : C → Page S C O → Page S C O
  call c p = record p { pending = p.pending ++ c ∷ [] }

  abbrev pub alert : String → Page S C O → Page S C O
  alert text p = record p { alerts = text ∷ p.alerts }

  abbrev pub push : String → Page S C O → Page S C O
  push path p = record p { pushed = path ∷ p.pushed }

  -- `window.location.reload`: a component with its first state takes the place of the old one, whose
  -- promises and timers go with it.
  abbrev pub reload : S → Page S C O → Page S C O
  reload s p = record (mount s) {
    alerts = p.alerts;
    pushed = p.pushed;
    token = p.token;
    reloads = p.reloads + 1;
  }

  -- `this.recaptcha.execute()`
  abbrev pub execute : Page S C O → Page S C O
  execute p = record p { challenges = p.challenges + 1 }

  -- `setState` of a component whose render starts nothing.
  abbrev pub set_state : (S → S) → Page S C O → Page S C O
  set_state f p = record p { state = f p.state }

  -- A promise leaves the list of those in flight.
  abbrev pub settle : C → O → List C → Page S C O → Page S C O
  settle c o rest p = record p { pending = rest; settled = (c, o) ∷ p.settled }

-- `JSON.parse(localStorage.getItem("token"))`. `JSON.stringify(undefined)` is stored as a text
-- that does not parse: then the call throws.
abbrev pub stored_token : Option Value → Option Value
stored_token none = some null
stored_token (some undefined) = none
stored_token (some v) = some v
