-- ===== src/AdminAction/Tests.antt =====
-- Runs of the action page, and the theorems about it at concrete inputs.
use mc_gatekeeper.Prelude.{String, true, false, some, List, [], ◌∷◌, ◌++◌, take_at, ◌≡◌, refl, All}
use mc_gatekeeper.Prelude.Int.{pos}
use mc_gatekeeper.Js.{Value, num, str, obj, end, field, fulfilled, rejected}
use mc_gatekeeper.Page.{mount}
use mc_gatekeeper.Services.{patch}
use mc_gatekeeper.AdminAction.{
  initial, Call, verify_admin_token, approve_request, ActionPage, component_did_mount, on_verified,
  on_request, handle_input_change, on_decision, on_decided,
}
use mc_gatekeeper.AdminAction.View.{
  change_note, approve, deny, shows_details, Details, read_details, render, details,
}
use mc_gatekeeper.AdminAction.Step.{
  Event, fire, answer, dispatch, resume, is_live, step, run, opened,
}
use mc_gatekeeper.AdminAction.Token.{IsLinked, run-IsLinked, details_before_verification}
use mc_gatekeeper.AdminAction.Decision.{
  request_of, is_decision, decisions_sent, decision-request, run-invalid_forever,
}
use mc_gatekeeper.AdminAction.Refusal.{run-refused}
use mc_gatekeeper.Jsx.{live}

abbrev keys : String → String
keys k = k

abbrev ago : Value → String
ago v = "an hour ago"

abbrev pending : Value
pending = obj (
    field "status" (str "Pending") (
      field "gender" (str "male") (
        field "age" (num (pos 20)) (
          field "info" (obj (field "applicationText" (str "let me in") end))
            (field "timestamp" (str "2020-01-01T00:00:00Z") end)))))

abbrev body : Value
body = obj (field "request" pending end)

abbrev shown_details : Details
shown_details = record {
  gender = "male";
  age = "20";
  application_text = "let me in";
  submitted = str "2020-01-01T00:00:00Z";
}

running : Unit {0}
unfolding run step dispatch resume is_live live render details shows_details read_details
    component_did_mount on_verified on_request handle_input_change on_decision on_decided take_at
running = tt

-- The op approves with a note while the token is being verified.
abbrev approving : List Event
approving = answer 1 (fulfilled 200 body) ∷ fire change_note "welcome" ∷ fire approve "" ∷ []

approving_sends :
    (run keys ago "id" (some "token") approving (opened keys ago "id" (some "token"))).pending
    ≡ verify_admin_token "id" "token" ∷ approve_request "id" "token" "welcome" ∷ []
unfolding running
approving_sends = refl

run-IsLinked_example :
    All
      (IsLinked "id" "token")
      (run keys ago "id" (some "token") approving (opened keys ago "id" (some "token"))).pending
run-IsLinked_example = run-IsLinked keys ago "id" "token" approving

details_before_verification_example :
    let p =
      run keys ago "id"
        (some "token")
        (answer 1 (fulfilled 200 body) ∷ [])
        (opened keys ago "id" (some "token")) in
    (shows_details p.state ≡ true)
    × (is_live keys ago approve p.state ≡ true)
    × (p.pending ≡ verify_admin_token "id" "token" ∷ [])
unfolding read_details
details_before_verification_example =
    details_before_verification keys ago "id" "token" approve body pending shown_details refl refl
      refl

abbrev deciding : ActionPage
deciding = mount (record initial { current_request = pending; admin_token = "token"; note = "no" })

decision-request_example :
    (c : Call) × ((step keys ago "id" (some "token") (fire deny "") deciding).pending
      ≡ [] ++ c ∷ [])
    × ((request_of "" c).verb ≡ patch)
    × ((request_of "" c).url ≡ "/api/v1/requests/id?adm=token")
    × ((request_of "" c).body ≡ obj (field "status" (str "Denied") (field "note" (str "no") end)))
    × (is_decision c ≡ true)
unfolding shows_details read_details
decision-request_example =
    decision-request keys ago "" "id" "" (some "token") deny deciding refl (λ e. cc)

-- A decision was sent before the token was refused; its answer is an error.
abbrev refused_page : ActionPage
refused_page = record (mount (record initial { invalid = true; current_request = pending })) {
  pending = approve_request "id" "token" "" ∷ [];
}

abbrev trying : List Event
trying = answer 0 (rejected (some 500)) ∷ fire approve "" ∷ []

run-invalid_forever_example :
    let q = run keys ago "id" (some "token") trying refused_page in
    (q.state.invalid ≡ true) × (shows_details q.state ≡ false) × (decisions_sent q ≡ 1)
unfolding running
run-invalid_forever_example =
    run-invalid_forever keys ago "id" (some "token") trying refused_page refl refl

-- The details are shown at first, then the token is refused.
abbrev refusing : List Event
refusing = answer 1 (fulfilled 200 body) ∷ answer 0 (rejected (some 401)) ∷ []

run-refused_example :
    let p = run keys ago "id" (some "token") refusing (opened keys ago "id" (some "token")) in
    (p.state.invalid ≡ true) × (shows_details p.state ≡ false)
unfolding running
run-refused_example = run-refused keys ago "id" (some "token") refusing refl
