-- ===== src/Dashboard/Landing.antt =====
-- app/src/components/Dashboard/landing: the list of landing.js and the table and the confirmation
-- dialog of Table.js, parent and child on one page.
pub mod Step
pub mod Transitions
mod Allowed
mod Confirm
mod Mirror
mod Locked
mod Authorized
mod Conflict
mod View
mod Tests
use mc_gatekeeper.Prelude.{
  ℕ, String, Bool, true, false, not, ◌&&◌, ◌||◌, ◌==◌, nat_eq, Option, none, some, List, [], ◌∷◌,
  map, if◌then◌else◌, ◌▷◌,
}
use mc_gatekeeper.Js.{Value, get, truthy, Reply, fulfilled, rejected}
use mc_gatekeeper.Js.Text.{to_text}
use mc_gatekeeper.Page.{Page, call, alert, push, set_state, stored_token}
use mc_gatekeeper.Dashboard.{WhitelistRequest}
use Prim.Native.String.{◌++◌}

-- The states of `Landing` and of `Table`; `undefined` and `null` are `none`.
pub record State : Type 0 where
  pub requests : Option (List WhitelistRequest)
  pub auth_header : Option String
  pub dialog_open : Bool
  pub row_data : Option WhitelistRequest
  pub attempted_new_status : Option String
  pub data_to_download : List WhitelistRequest

abbrev pub initial : State
initial = record {
  requests = none;
  auth_header = none;
  dialog_open = false;
  row_data = none;
  attempted_new_status = none;
  data_to_download = [];
}

pub data Call : Type 0 where
  get_all_requests : String → Call
  handle_status_change_by_admin : WhitelistRequest → String → String → Call

abbrev pub LandingPage : Type 0
LandingPage = Page State Call (Reply (Option (List WhitelistRequest)))

-- `Landing.componentDidMount`. A token that does not parse throws, and nothing else is done.
unfoldable pub component_did_mount : LandingPage → LandingPage
unfolding to_text
component_did_mount p = elim (stored_token p.token) [
  | none ↦ p
  | some token ↦
      if truthy token
      then elim (get token "value") [
        | none ↦ p
        | some v ↦
            let header = "Bearer " ++ to_text v in
            p
            ▷ set_state (λ s. record s { auth_header = some header })
            ▷ call (get_all_requests header)
      ]
      else p ▷ push "/login"
]

-- The callbacks of `getAllRequests`, where the answer's `requests` may be missing or null;
-- `localStorage.clear()` drops the token.
unfoldable pub on_requests : Reply (Option (List WhitelistRequest)) → LandingPage → LandingPage
on_requests (fulfilled status rows) p =
    if nat_eq status 200 then p ▷ set_state (λ s. record s { requests = rows }) else p
on_requests (rejected response) p = record p { token = none } ▷ push "/login"

-- The loop of `handleChangeRequestStatus`.
unfoldable pub replace : String → WhitelistRequest → List WhitelistRequest → List WhitelistRequest
replace request_id updated [] = []
replace request_id updated (r ∷ rs) =
    (if r.id == request_id then updated else r) ∷ replace request_id updated rs

-- `Landing.handleChangeRequestStatus`
unfoldable pub handle_change_request_status : String → WhitelistRequest → LandingPage → LandingPage
unfolding replace
handle_change_request_status request_id updated p = elim p.state.requests [
  | none ↦ p
  | some rows ↦ p ▷ set_state (λ s. record s { requests = some (replace request_id updated rows) })
]

-- `Table.onStatusChange`, up to its promise.
unfoldable pub on_status_change : WhitelistRequest → String → LandingPage → LandingPage
on_status_change request new_status p = elim p.state.auth_header [
  | none ↦ p
  | some config ↦ p ▷ call (handle_status_change_by_admin request config new_status)
]

-- The request that the table makes up for the parent once the server has answered; `now` is the
-- time of the answer.
unfoldable pub mocked : WhitelistRequest → String → String → WhitelistRequest
mocked request new_status now = record request {
  status = new_status;
  processed_timestamp =
      (if request.processed_timestamp == "N/A" then now else request.processed_timestamp);
  last_updated_timestamp = now;
}

-- The callbacks of `handleStatusChangeByAdmin`. `Table` is not given `history`: after the alert of
-- a 401, `this.props.history.push` throws and the page does not change.
unfoldable pub on_status_changed :
    WhitelistRequest
    → String
    → String
    → Reply (Option (List WhitelistRequest))
    → LandingPage
    → LandingPage
unfolding handle_change_request_status mocked
on_status_changed request new_status now (fulfilled status body) p =
    if nat_eq status 200
    then handle_change_request_status request.id (mocked request new_status now) p
    else p
on_status_changed request new_status now (rejected none) p = p
on_status_changed request new_status now (rejected (some status)) p =
    if nat_eq status 500
    then p ▷ alert "Internal Server Error"
    else if nat_eq status 401
    then p ▷ alert "Login session expired. Please login again"
    else p ▷ alert "Unable to complete the request. Please refresh and try again"

-- `handleClickOpen` and `handleClose`
unfoldable pub handle_click_open : LandingPage → LandingPage
handle_click_open p = p ▷ set_state λ s. record s { dialog_open = true }

unfoldable pub handle_close : LandingPage → LandingPage
handle_close p = p ▷ set_state λ s. record s { dialog_open = false }

-- `onAttemptAction`
unfoldable pub on_attempt_action : WhitelistRequest → String → LandingPage → LandingPage
on_attempt_action row new_status p =
    p
    ▷ set_state λ s. record s {
      dialog_open = true;
      row_data = some row;
      attempted_new_status = some new_status;
    }

-- `onConfirmAction`; a dialog that was never given a row throws.
unfoldable pub on_confirm_action : LandingPage → LandingPage
unfolding on_status_change handle_close
on_confirm_action p = elim p.state.row_data [
  | none ↦ p
  | some row ↦ elim p.state.attempted_new_status [
    | none ↦ p
    | some new_status ↦ p ▷ on_status_change row new_status ▷ handle_close
  ]
]

-- `download`
unfoldable pub download : List WhitelistRequest → LandingPage → LandingPage
download rows p = p ▷ set_state λ s. record s { data_to_download = rows }

-- `getActionConfirmMsg`; `undefined` is the empty text.
unfoldable pub get_action_confirm_msg : State → String
get_action_confirm_msg s = elim s.attempted_new_status [
  | none ↦ ""
  | some status ↦
      if status == "Banned"
      then "You are about to ban the player permanately on your server. Are you sure about this?"
      else if status == "Deactivated"
      then "By deactivating, the player will be unwhitelisted from your server and unable to play. However the user will be able to submit new application again in the future."
      else ""
]

abbrev pub zero_time : String
zero_time = "0001-01-01T00:00:00Z"

-- The rows that `render` gives to the table; `format` is moment's local date and time.
module _ (format : String → String) where
  abbrev pub readable : String → String
  readable time = if time == zero_time then "N/A" else format time

  unfoldable pub format_row : WhitelistRequest → WhitelistRequest
  format_row item = record item {
    timestamp = format item.timestamp;
    processed_timestamp = readable item.processed_timestamp;
    last_updated_timestamp = readable item.last_updated_timestamp;
    admin = (if item.admin == "" then "N/A" else item.admin);
  }

  -- No rows are shown before the list and the header are there.
  unfoldable pub rows : State → List WhitelistRequest
  unfolding format_row
  rows s = elim s.requests [
    | none ↦ []
    | some requests ↦ elim s.auth_header [ none ↦ [] | some config ↦ map format_row requests ]
  ]

-- The four actions of a row.
pub data Action : Type 0 where
  approve deny deactivate ban : Action

abbrev pub target : Action → String
target approve = "Approved"
target deny = "Denied"
target deactivate = "Deactivated"
target ban = "Banned"

-- An action's `hidden`
unfoldable pub hidden : Action → WhitelistRequest → Bool
hidden approve row = not (row.status == "Pending")
hidden deny row = not (row.status == "Pending")
hidden deactivate row = not (row.status == "Approved")
hidden ban row = not (row.status == "Approved")

-- An action's `onClick`
unfoldable pub on_click : Action → WhitelistRequest → LandingPage → LandingPage
unfolding on_status_change on_attempt_action
on_click approve row p = on_status_change row "Approved" p
on_click deny row p = on_status_change row "Denied" p
on_click deactivate row p = on_attempt_action row "Deactivated" p
on_click ban row p = on_attempt_action row "Banned" p
