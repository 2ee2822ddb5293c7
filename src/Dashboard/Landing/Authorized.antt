-- ===== src/Dashboard/Landing/Authorized.antt =====
-- The requests that the landing page sends, and whose token they carry.
use mc_gatekeeper.Prelude.{
  String, Bool, true, false, nat_eq, Option, none, some, List, [], ◌∷◌, take_at, ◌≡◌, refl, inl,
  inr, Option-cases, All, All-append, All-take_at, if◌then◌else◌, ◌∙◌,
}
use mc_gatekeeper.Js.{Value, get, truthy, Reply, fulfilled, rejected}
use mc_gatekeeper.Js.Text.{to_text}
use mc_gatekeeper.Page.{stored_token}
use mc_gatekeeper.Services
use mc_gatekeeper.Services.{HttpRequest}
use mc_gatekeeper.Dashboard.{WhitelistRequest}
use mc_gatekeeper.Dashboard.Landing.{
  State, Call, get_all_requests, handle_status_change_by_admin, LandingPage, component_did_mount,
  on_requests, on_status_change, on_status_changed, handle_change_request_status, handle_close,
  on_attempt_action, on_confirm_action, download, rows, Action, approve, deny, deactivate, ban,
  hidden, on_click,
}
use mc_gatekeeper.Dashboard.Landing.Step.{
  Event, act, confirm, close, answer, export, resume, step, run, opened,
}
use Prim.Native.String.{◌++◌ as append}

-- The request that each call hands to axios.
unfoldable pub request_of : String → Call → HttpRequest
request_of host (get_all_requests header) = Services.get_all_requests host header
request_of host (handle_status_change_by_admin row header s) =
    Services.handle_status_change_by_admin host row.id header s

module _ (host header : String) where
  abbrev pub IsAuthorized : Call → Type 0
  IsAuthorized c = (request_of host c).authorization ≡ some header

  record Inv (p : LandingPage) : Type 0 where
    auth : p.state.auth_header ≡ some header
    calls : All IsAuthorized p.pending

  keep :
      (s : State) {p : LandingPage}
      → s.auth_header ≡ p.state.auth_header
      → Inv p
      → Inv (record p { state = s })
  keep s e i = record { auth = e ∙ i.auth; calls = i.calls }

  if-Inv : (b : Bool) {p q : LandingPage} → Inv p → Inv q → Inv (if b then p else q)
  if-Inv true i j = i
  if-Inv false i j = j

  ask-Inv :
      (row : WhitelistRequest) (s : String) (p : LandingPage)
      → Inv p
      → Inv (on_status_change row s p)
  unfolding on_status_change request_of Services.handle_status_change_by_admin
  ask-Inv row s p i =
      simp (i.auth, on_status_change)
        (record { auth = i.auth; calls = All-append IsAuthorized p.pending _ i.calls (refl, tt) })

  click-Inv :
      (a : Action) (row : WhitelistRequest) (p : LandingPage) → Inv p → Inv (on_click a row p)
  unfolding on_click on_attempt_action
  click-Inv approve row p i = ask-Inv row "Approved" p i
  click-Inv deny row p i = ask-Inv row "Denied" p i
  click-Inv deactivate row p i = keep _ refl i
  click-Inv ban row p i = keep _ refl i

  confirm-Inv : (p : LandingPage) → Inv p → Inv (on_confirm_action p)
  unfolding on_confirm_action handle_close
  confirm-Inv p i = elim (Option-cases p.state.row_data) [
    | inl gone ↦ simp (gone, on_confirm_action) i
    | inr (row, there) ↦ elim (Option-cases p.state.attempted_new_status) [
      | inl gone ↦ simp (there, gone, on_confirm_action) i
      | inr (s, asked) ↦ simp (there, asked, on_confirm_action) (keep _ refl (ask-Inv row s p i))
    ]
  ]

  changed-Inv :
      (row : WhitelistRequest) (s now : String) (o : Reply (Option (List WhitelistRequest)))
      (p : LandingPage)
      → Inv p
      → Inv (on_status_changed row s now o p)
  unfolding on_status_changed handle_change_request_status
  changed-Inv row s now (rejected none) p i = i
  changed-Inv row s now (rejected (some status)) p i =
      if-Inv (nat_eq status 500) (record { auth = i.auth; calls = i.calls })
        (if-Inv (nat_eq status 401) (record { auth = i.auth; calls = i.calls })
          (record { auth = i.auth; calls = i.calls }))
  changed-Inv row s now (fulfilled status body) p i =
      if-Inv (nat_eq status 200)
        (elim (Option-cases p.state.requests) [
          | inl gone ↦ simp (gone, handle_change_request_status) i
          | inr (rs, there) ↦ simp (there, handle_change_request_status) (keep _ refl i)
        ])
        i

  resume-Inv :
      (c : Call) (o : Reply (Option (List WhitelistRequest))) (now : String) (p : LandingPage)
      → Inv p
      → Inv (resume c o now p)
  unfolding resume on_requests
  resume-Inv (get_all_requests h) (rejected response) now p i = record {
    auth = i.auth;
    calls = i.calls;
  }
  resume-Inv (get_all_requests h) (fulfilled status body) now p i =
      if-Inv (nat_eq status 200) (keep _ refl i) i
  resume-Inv (handle_status_change_by_admin row h s) o now p i = changed-Inv row s now o p i

  module _ (format : String → String) where
    step-Inv : (e : Event) (p : LandingPage) → Inv p → Inv (step format e p)
    unfolding step handle_close download
    step-Inv (act j a) p i = elim (Option-cases (take_at j (rows format p.state))) [
      | inl gone ↦ rw (gone, step) i
      | inr ((row, rest), found) ↦ rw (found, step) (if-Inv (hidden a row) i (click-Inv a row p i))
    ]
    step-Inv confirm p i = if-Inv p.state.dialog_open (confirm-Inv p i) i
    step-Inv close p i = if-Inv p.state.dialog_open (keep _ refl i) i
    step-Inv (export d) p i = keep _ refl i
    step-Inv (answer j o now) p i = elim (Option-cases (take_at j p.pending)) [
      | inl gone ↦ rw (gone, step) i
      | inr ((c, rest), found) ↦
          rw (found, step)
            (resume-Inv c o now _ (record {
              auth = i.auth;
              calls = (All-take_at IsAuthorized j p.pending found i.calls).1;
            }))
    ]

    run-Inv : (es : List Event) (p : LandingPage) → Inv p → Inv (run format es p)
    unfolding run
    run-Inv [] p i = i
    run-Inv (e ∷ es) p i = run-Inv es (step format e p) (step-Inv e p i)

-- In every run of a landing page opened with a stored token, each request in flight carries that
-- token's value, even after the token was dropped from the storage.
pub run-IsAuthorized :
    (host : String) (format : String → String) (stored : Option Value) (token v : Value)
    (es : List Event)
    → stored_token stored ≡ some token
    → truthy token ≡ true
    → get token "value" ≡ some v
    → All (IsAuthorized host (append "Bearer " (to_text v))) (run format es (opened stored)).pending
unfolding component_did_mount request_of Services.get_all_requests
run-IsAuthorized host format stored token v es read holds found =
    let header = append "Bearer " (to_text v) in
    let start : Inv host header (opened stored) =
      simp (read, holds, found, component_did_mount) (record { auth = refl; calls = (refl, tt) }) in
    (run-Inv host header format es (opened stored) start).calls
