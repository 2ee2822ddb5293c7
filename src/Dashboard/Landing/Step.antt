-- ===== src/Dashboard/Landing/Step.antt =====
-- The event loop of the landing page: the buttons of the rows, the dialog, the answers.
use mc_gatekeeper.Prelude.{
  ℕ, String, Option, none, some, List, [], ◌∷◌, take_at, if◌then◌else◌, ◌▷◌,
}
use mc_gatekeeper.Js.{Value, Reply}
use mc_gatekeeper.Page.{mount, settle}
use mc_gatekeeper.Dashboard.{WhitelistRequest}
use mc_gatekeeper.Dashboard.Landing.{
  initial, Call, get_all_requests, handle_status_change_by_admin, LandingPage, component_did_mount,
  on_requests, on_status_changed, handle_close, on_confirm_action, download, rows, Action, hidden,
  on_click,
}

-- `act i a`: the op clicks an action of the i-th row. `confirm` and `close` are the buttons of the
-- dialog. `answer i o now`: the i-th promise in flight settles at the time `now`. `export data`:
-- the table hands the rows it shows to the CSV export.
pub data Event : Type 0 where
  act : ℕ → Action → Event
  confirm close : Event
  answer : ℕ → Reply (Option (List WhitelistRequest)) → String → Event
  export : List WhitelistRequest → Event

-- The callbacks of each promise.
unfoldable pub resume :
    Call → Reply (Option (List WhitelistRequest)) → String → LandingPage → LandingPage
resume (get_all_requests header) o now p = on_requests o p
resume (handle_status_change_by_admin request header new_status) o now p =
    on_status_changed request new_status now o p

module _ (format : String → String) where
  -- A hidden action has no button, and a closed dialog has none.
  unfoldable pub step : Event → LandingPage → LandingPage
  unfolding take_at
  step (act i a) p = elim (take_at i (rows format p.state)) [
    | none ↦ p
    | some (row, rest) ↦ if hidden a row then p else on_click a row p
  ]
  step confirm p = if p.state.dialog_open then on_confirm_action p else p
  step close p = if p.state.dialog_open then handle_close p else p
  step (answer i o now) p = elim (take_at i p.pending) [
    | none ↦ p
    | some (c, rest) ↦ resume c o now (p ▷ settle c o rest)
  ]
  step (export exported) p = download exported p

  unfoldable pub run : List Event → LandingPage → LandingPage
  run [] p = p
  run (e ∷ es) p = run es (step e p)

-- The page as it is opened in a browser that holds a token or none.
abbrev pub opened : Option Value → LandingPage
opened token = component_did_mount (record (mount initial) { token = token })
