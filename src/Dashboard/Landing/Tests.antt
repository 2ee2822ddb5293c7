-- ===== src/Dashboard/Landing/Tests.antt =====
-- Runs of the landing page, and the theorems about it at concrete inputs.
use mc_gatekeeper.Prelude.{
  inl, ◌++◌, ◌==◌, String, some, none, Option, List, [], ◌∷◌, take_at, ◌≡◌, refl, All,
  if◌then◌else◌,
}
use mathlib.Core.Option
use mc_gatekeeper.Prelude.Int.{pos}
use mc_gatekeeper.Js.{Value, undefined, str, obj, end, field, fulfilled}
use mc_gatekeeper.Page.{mount}
use mc_gatekeeper.Dashboard.{WhitelistRequest}
use mc_gatekeeper.Dashboard.Landing.View.{
  buttons, buttons_lem, detail_panel, detail_panel-throws_iff,
}
use mc_gatekeeper.Dashboard.Landing.{
  initial, handle_status_change_by_admin, LandingPage, component_did_mount, on_requests,
  on_status_change, on_status_changed, handle_change_request_status, replace, mocked, handle_close,
  on_attempt_action, on_confirm_action, download, format_row, rows, approve, deactivate, ban,
  hidden, on_click,
}
use mc_gatekeeper.Dashboard.Landing.Step.{
  Event, act, confirm, close, answer, resume, step, run, opened,
}
use mc_gatekeeper.Dashboard.Landing.Allowed.{IsAllowed, run-IsAllowed}
use mc_gatekeeper.Dashboard.Landing.Confirm.{drastic, run-unconfirmed}
use mc_gatekeeper.Dashboard.Landing.Mirror.{find, ids, on_status_changed-mirror}
use mc_gatekeeper.Dashboard.Landing.Authorized.{IsAuthorized, run-IsAuthorized}
use mc_gatekeeper.Js.Text.{to_text}

abbrev same : String → String
same time = time

abbrev steve : WhitelistRequest
steve = record {
  id = "1";
  username = "steve";
  email = "s@x.org";
  age = pos 20;
  gender = "male";
  status = "Pending";
  timestamp = "2020-01-01T00:00:00Z";
  processed_timestamp = "0001-01-01T00:00:00Z";
  last_updated_timestamp = "0001-01-01T00:00:00Z";
  admin = "";
  note = "";
  info = undefined;
  assignees = [];
}

abbrev alex : WhitelistRequest
alex = record steve { id = "2"; username = "alex"; status = "Approved" }

-- A pending request can be decided, an approved one taken back.
buttons-steve : (buttons steve ≡ "check" ∷ "close" ∷ []) × (buttons alex ≡ "cancel" ∷ "delete" ∷ [])
buttons-steve = (buttons_lem steve, buttons_lem alex)

-- The details of a request without information cannot be opened.
detail_panel-steve : detail_panel same steve ≡ none
detail_panel-steve = (detail_panel-throws_iff same steve).1 (inl refl)

abbrev stored : Option Value
stored = some (obj (field "value" (str "jwt") end))

running : Unit {0}
unfolding run step resume component_did_mount on_requests on_status_change on_status_changed
    handle_change_request_status replace mocked handle_close on_attempt_action on_confirm_action
    download format_row rows hidden on_click take_at
running = tt

-- The op bans alex through the dialog, and the server agrees.
abbrev asking : List Event
asking = answer 0 (fulfilled 200 (some (steve ∷ alex ∷ []))) "now" ∷ act 1 ban ∷ confirm ∷ []

abbrev banning : List Event
banning = asking ++ answer 0 (fulfilled 200 none) "noon" ∷ []

banning_shows :
    (run same banning (opened stored)).state.requests
    ≡ some (
        steve
        ∷ record (record alex { admin = "N/A" }) {
          status = "Banned";
          processed_timestamp = "noon";
          last_updated_timestamp = "noon";
        }
        ∷ [])
unfolding running
banning_shows = refl

run-IsAllowed_example : All IsAllowed (run same asking (opened stored)).pending
run-IsAllowed_example = run-IsAllowed same stored asking

abbrev listing : LandingPage
listing =
    mount (record initial { requests = some (steve ∷ alex ∷ []); auth_header = some "Bearer jwt" })

abbrev dismissing : List Event
dismissing = act 1 ban ∷ close ∷ act 0 approve ∷ act 1 deactivate ∷ []

dismissing_sends :
    (run same dismissing listing).pending
    ≡ handle_status_change_by_admin
        (record steve {
          processed_timestamp = "N/A";
          last_updated_timestamp = "N/A";
          admin = "N/A";
        })
        "Bearer jwt"
        "Approved"
      ∷ []
unfolding running
dismissing_sends = refl

run-unconfirmed_example : drastic (run same dismissing listing) ≡ 0
run-unconfirmed_example = run-unconfirmed same dismissing listing refl

on_status_changed-mirror_example :
    (rs' : List WhitelistRequest) × ((on_status_changed steve "Denied" "noon"
        (fulfilled 200 none)
        listing).state.requests
      ≡ some rs')
    × (ids rs' ≡ "1" ∷ "2" ∷ [])
    × ((id : String)
        → find id rs' ≡ (
            if "1" == id
            then Option.map
                (λ old. record steve {
                  status = "Denied";
                  processed_timestamp = "0001-01-01T00:00:00Z";
                  last_updated_timestamp = "noon";
                })
                (find id (steve ∷ alex ∷ []))
            else find id (steve ∷ alex ∷ [])))
on_status_changed-mirror_example =
    on_status_changed-mirror steve "Denied" "noon" none (steve ∷ alex ∷ []) listing refl

run-IsAuthorized_example :
    All (IsAuthorized "" "Bearer jwt") (run same asking (opened stored)).pending
unfolding to_text
run-IsAuthorized_example =
    run-IsAuthorized "" same stored (obj (field "value" (str "jwt") end)) (str "jwt") asking refl
      refl refl

abbrev shown_steve : WhitelistRequest
shown_steve = record steve {
  processed_timestamp = "N/A";
  last_updated_timestamp = "N/A";
  admin = "N/A";
}
