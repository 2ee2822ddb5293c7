-- ===== src/CheckStatus.antt =====
-- app/src/components/CheckStatus.js: the page on which a player looks up a request. `id` is the
-- route's parameter, `t` is `i18next.t` and `from_now` what moment makes of a timestamp.
pub mod Labels
mod Answers
mod Tests
use mc_gatekeeper.Prelude.{
  ℕ, String, Bool, true, false, not, ◌&&◌, nat_eq, Option, none, some, List, [], ◌∷◌, take_at,
  if◌then◌else◌, ◌▷◌,
}
use mc_gatekeeper.Js.{Value, obj, end, get, truthy, is_str, Outcome, fulfilled, rejected, ◌>>=◌}
use mc_gatekeeper.Js.Text.{child}
use mc_gatekeeper.Page.{Page, mount, call, set_state, settle}
use mc_gatekeeper.Jsx.{Node, text, prop, flag, element, nil, ◌⊹◌}

pub record State : Type 0 where
  pub current_request : Value
  pub invalid : Bool

abbrev pub initial : State
initial = record { current_request = obj end; invalid = false }

pub data Call : Type 0 where
  get_request_by_encoded_id : String → Call

abbrev pub StatusPage : Type 0
StatusPage = Page State Call Outcome

abbrev pub component_did_mount : String → StatusPage → StatusPage
component_did_mount id p = call (get_request_by_encoded_id id) p

abbrev mark_invalid : StatusPage → StatusPage
mark_invalid p = p ▷ set_state λ s. record s { invalid = true }

-- The callbacks of `getRequestByEncodedID`.
unfoldable pub on_request : Outcome → StatusPage → StatusPage
on_request (fulfilled status body) p =
    if nat_eq status 200
    then elim (get body "request") [
      | none ↦ mark_invalid p
      | some r ↦ p ▷ set_state (λ s. record s { current_request = r })
    ]
    else p
on_request (rejected response) p = mark_invalid p

-- `getButtonColor`
unfoldable pub get_button_color : Value → String
get_button_color status =
    if is_str status "Approved"
    then "success"
    else if is_str status "Denied"
    then "danger"
    else "info"

-- `getApplicationStatusText`; `undefined` shows as nothing.
unfoldable pub get_application_status_text : (String → String) → Value → String
get_application_status_text t status =
    if is_str status "Pending"
    then t "Status.Pending"
    else if is_str status "Approved"
    then t "Status.Approved"
    else if is_str status "Denied"
    then t "Status.Denied"
    else ""

-- A promise in flight settles.
pub data Event : Type 0 where
  answer : ℕ → Outcome → Event

unfoldable pub step : Event → StatusPage → StatusPage
unfolding take_at
step (answer i o) p = elim (take_at i p.pending) [
  | none ↦ p
  | some (c, rest) ↦ on_request o (p ▷ settle c o rest)
]

unfoldable pub run : List Event → StatusPage → StatusPage
run [] p = p
run (e ∷ es) p = run es (step e p)

abbrev pub opened : String → StatusPage
opened id = component_did_mount id (mount initial)

module _ (t : String → String) (from_now : Value → String) where
  abbrev Tree : Type 0
  Tree = Node ⊥

  abbrev item : String → Tree → Tree
  item label content =
      element "ListGroupItem" (prop "tag" "a" ∷ flag "action" true ∷ [])
        (element "strong" [] (text (t label) ⊹ nil) ⊹ content ⊹ nil)

  -- The details of a request, with the color and the text of its status.
  abbrev pub details : String → String → String → String → String → Value → Tree
  details username email color label reference timestamp = element "div" [] (
      element "Container" [] (
        element "ListGroup" [] (
          element "ListGroupItem" (flag "active" true ∷ flag "action" true ∷ [])
            (text (t "Status.Title") ⊹ nil)
          ⊹ item "Status.Username" (text username)
          ⊹ item "Status.Email" (text email)
          ⊹ item "Status.Status"
              (element "Button" (prop "color" color ∷ prop "type" "button" ∷ []) (text label ⊹ nil))
          ⊹ item "Status.ReferenceID" (text reference)
          ⊹ element "ListGroupItem" (flag "disabled" true ∷ flag "action" true ∷ []) (
              element "p" [] (text (t "Status.Submitted") ⊹ text (from_now timestamp) ⊹ nil)
              ⊹ element "p" [] (text (t "Status.Message") ⊹ nil)
              ⊹ nil)
          ⊹ nil)
        ⊹ nil)
      ⊹ nil)

  -- No handler is on the page. A TypeError, or an object where React wants text, is `none`.
  unfoldable pub render : State → Option Tree
  unfolding child get_button_color get_application_status_text
  render s =
      if not s.invalid && truthy s.current_request
      then (do
        username ← (get s.current_request "username" >>= child)
        email ← (get s.current_request "email" >>= child)
        status ← get s.current_request "status"
        reference ← (get s.current_request "_id" >>= child)
        timestamp ← get s.current_request "timestamp"
        some (
            details username email (get_button_color status) (get_application_status_text t status)
              reference timestamp))
      else some (element "div" [] (element "h1" [] (text "Invalid" ⊹ nil) ⊹ nil))
