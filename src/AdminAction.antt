-- ===== src/AdminAction.antt =====
-- app/src/components/AdminAction.js: the page behind the link that an op gets by mail.
-- `id` is the route's parameter and `adm` the query's, if there is one; `t` is `i18next.t` and
-- `from_now` what moment makes of a timestamp.
pub mod View
pub mod Step
pub mod Token
pub mod Decision
mod Refusal
mod Tests
use mc_gatekeeper.Prelude.{
  ℕ, String, Bool, true, false, not, ◌&&◌, ◌==◌, nat_eq, Option, none, some, if◌then◌else◌, ◌▷◌,
}
use mc_gatekeeper.Js.{Value, undefined, obj, end, get, truthy, is_str, Outcome, fulfilled, rejected}
use mc_gatekeeper.Page.{Page, call, alert, reload, set_state}

pub record State : Type 0 where
  pub current_request : Value
  pub invalid : Bool
  pub admin_token : String
  pub note : String

abbrev pub initial : State
initial = record { current_request = obj end; invalid = false; admin_token = ""; note = "" }

pub data Call : Type 0 where
  verify_admin_token : String → String → Call
  get_request_by_encoded_id : String → Call
  approve_request : String → String → String → Call
  deny_request : String → String → String → Call

abbrev pub ActionPage : Type 0
ActionPage = Page State Call Outcome

abbrev pub mark_invalid : ActionPage → ActionPage
mark_invalid p = p ▷ set_state λ s. record s { invalid = true }

-- `componentDidMount`: the two calls start together.
unfoldable pub component_did_mount : String → Option String → ActionPage → ActionPage
component_did_mount id none p = mark_invalid p
component_did_mount id (some adm) p =
    p
    ▷ set_state (λ s. record s { admin_token = adm })
    ▷ call (verify_admin_token id adm)
    ▷ call (get_request_by_encoded_id id)

-- The `catch` of `verifyAdminToken`; there is no `then`.
unfoldable pub on_verified : Outcome → ActionPage → ActionPage
on_verified (fulfilled status body) p = p
on_verified (rejected response) p = mark_invalid p

-- The callbacks of `getRequestByEncodedID`.
unfoldable pub on_request : Outcome → ActionPage → ActionPage
on_request (fulfilled status body) p =
    if nat_eq status 200
    then elim (get body "request") [
      | none ↦ mark_invalid p
      | some r ↦ p ▷ set_state (λ s. record s { current_request = r })
    ]
    else p
on_request (rejected response) p = mark_invalid p

-- `handleInputChange`; the one input is named "note".
unfoldable pub handle_input_change : String → ActionPage → ActionPage
handle_input_change v p = p ▷ set_state λ s. record s { note = v }

-- `onDecision`
unfoldable pub on_decision : String → String → ActionPage → ActionPage
on_decision id new_status p =
    p
    ▷ call (
        if new_status == "Denied"
        then deny_request id p.state.admin_token p.state.note
        else approve_request id p.state.admin_token p.state.note)

-- The callbacks of a decision. The page that is loaded again has the same link.
unfoldable pub on_decided :
    (String → String) → String → Option String → Outcome → ActionPage → ActionPage
unfolding component_did_mount
on_decided t id adm (fulfilled status body) p =
    if nat_eq status 200
    then component_did_mount id adm (p ▷ alert (t "Action.CompletedMsg") ▷ reload initial)
    else p
on_decided t id adm (rejected none) p = p
on_decided t id adm (rejected (some status)) p =
    if nat_eq status 400
    then p ▷ alert (t "Action.InvalidTokenErrMsg")
    else p ▷ alert (t "Action.InternalErrMsg")

-- `request && request.status === "…"`
abbrev pub status_is : String → Value → Bool
status_is status request =
    truthy request && (elim (get request "status") [ none ↦ false | some v ↦ is_str v status ])
