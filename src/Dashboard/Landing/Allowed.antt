-- ===== src/Dashboard/Landing/Allowed.antt =====
-- The calls of the landing page against the life of a request.
use mc_gatekeeper.Prelude.{
  String, Bool, true, false, ap, ◌∙◌, if◌then◌else◌, nat_eq, Option, none, some, List, [], ◌∷◌,
  take_at, ◌≡◌, refl, sym, subst, inl, inr, Bool-cases, Option-cases, All, All-append, All-take_at,
}
use mathlib.Core.Option.{some-injective}
use mc_gatekeeper.Js.{Value, get, truthy, Reply, fulfilled, rejected}
use mc_gatekeeper.Page.{stored_token}
use mc_gatekeeper.Dashboard.{WhitelistRequest}
use mc_gatekeeper.Dashboard.Landing.{
  State, Call, get_all_requests, handle_status_change_by_admin, LandingPage, component_did_mount,
  on_requests, on_status_change, on_status_changed, handle_change_request_status, handle_close,
  on_attempt_action, on_confirm_action, download, rows, Action, approve, deny, deactivate, ban,
  target, hidden, on_click,
}
use mc_gatekeeper.Dashboard.Landing.Step.{
  Event, act, confirm, close, answer, export, resume, step, run, opened,
}
use mc_gatekeeper.Dashboard.Landing.Transitions.{◌⟶◌, hidden-move}

-- A call for a change of status asks for one that the row allowed.
abbrev pub IsAllowed : Call → Type 0
IsAllowed (get_all_requests header) = Unit
IsAllowed (handle_status_change_by_admin request header new_status) = request.status ⟶ new_status

record Inv (p : LandingPage) : Type 0 where
  calls : All IsAllowed p.pending
  dialog :
      (row : WhitelistRequest) (s : String)
      → p.state.row_data ≡ some row
      → p.state.attempted_new_status ≡ some s
      → row.status ⟶ s

keep :
    (s : State) {p : LandingPage}
    → s.row_data ≡ p.state.row_data
    → s.attempted_new_status ≡ p.state.attempted_new_status
    → Inv p
    → Inv (record p { state = s })
keep s e f i = record {
  calls = i.calls;
  dialog = λ row u a b. i.dialog row u (sym e ∙ a) (sym f ∙ b);
}

if-Inv : (b : Bool) {p q : LandingPage} → Inv p → Inv q → Inv (if b then p else q)
if-Inv true i j = i
if-Inv false i j = j

on_status_change-Inv :
    (row : WhitelistRequest) (s : String) {p : LandingPage}
    → row.status ⟶ s
    → Inv p
    → Inv (on_status_change row s p)
unfolding on_status_change
on_status_change-Inv row s {p} m i = elim (Option-cases p.state.auth_header) [
  | inl none_yet ↦ simp (none_yet, on_status_change) i
  | inr (h, there) ↦
      rw there (record { calls = All-append _ _ _ i.calls (m, tt); dialog = i.dialog })
]

on_attempt-Inv :
    (row : WhitelistRequest) (s : String) {p : LandingPage}
    → row.status ⟶ s
    → Inv p
    → Inv (on_attempt_action row s p)
unfolding on_attempt_action
on_attempt-Inv row s m i = record {
  calls = i.calls;
  dialog = λ r u a b.
      subst (λ x. x ⟶ u) (ap (λ (x : WhitelistRequest). x.status) (some-injective _ _ a))
        (subst (λ x. row.status ⟶ x) (some-injective _ _ b) m);
}

on_click-Inv :
    (a : Action) (row : WhitelistRequest) {p : LandingPage}
    → row.status ⟶ target a
    → Inv p
    → Inv (on_click a row p)
unfolding on_click
on_click-Inv approve row m i = on_status_change-Inv row "Approved" m i
on_click-Inv deny row m i = on_status_change-Inv row "Denied" m i
on_click-Inv deactivate row m i = on_attempt-Inv row "Deactivated" m i
on_click-Inv ban row m i = on_attempt-Inv row "Banned" m i

on_confirm-Inv : (p : LandingPage) → Inv p → Inv (on_confirm_action p)
unfolding on_confirm_action handle_close
on_confirm-Inv p i = elim (Option-cases p.state.row_data) [
  | inl gone ↦ simp (gone, on_confirm_action) i
  | inr (row, there) ↦ elim (Option-cases p.state.attempted_new_status) [
    | inl gone ↦ simp (there, gone, on_confirm_action) i
    | inr (s, asked) ↦
        let j = on_status_change-Inv row s (i.dialog row s there asked) i in
        simp (there, asked, on_confirm_action) (keep _ refl refl j)
  ]
]

on_requests-Inv :
    (o : Reply (Option (List WhitelistRequest))) {p : LandingPage} → Inv p → Inv (on_requests o p)
unfolding on_requests
on_requests-Inv (rejected response) i = record { calls = i.calls; dialog = i.dialog }
on_requests-Inv (fulfilled status body) i = elim (Bool-cases (nat_eq status 200)) [
  | inl ok ↦ rw ok (keep _ refl refl i)
  | inr other ↦ rw other i
]

on_status_changed-Inv :
    (row : WhitelistRequest) (s now : String) (o : Reply (Option (List WhitelistRequest)))
    {p : LandingPage}
    → Inv p
    → Inv (on_status_changed row s now o p)
unfolding on_status_changed handle_change_request_status
on_status_changed-Inv row s now (rejected none) i = i
on_status_changed-Inv row s now (rejected (some status)) i = elim (Bool-cases (nat_eq status 500)) [
  | inl a ↦ rw a (record { calls = i.calls; dialog = i.dialog })
  | inr a ↦ elim (Bool-cases (nat_eq status 401)) [
    | inl b ↦ rw (a, b) (record { calls = i.calls; dialog = i.dialog })
    | inr b ↦ rw (a, b) (record { calls = i.calls; dialog = i.dialog })
  ]
]
on_status_changed-Inv row s now (fulfilled status body) {p} i =
    elim (Bool-cases (nat_eq status 200)) [
      | inr other ↦ rw other i
      | inl ok ↦ elim (Option-cases p.state.requests) [
        | inl gone ↦ simp (ok, gone, handle_change_request_status) i
        | inr (rs, there) ↦ rw (ok, there) (keep _ refl refl i)
      ]
    ]

resume-Inv :
    (c : Call) (o : Reply (Option (List WhitelistRequest))) (now : String) {p : LandingPage}
    → Inv p
    → Inv (resume c o now p)
unfolding resume
resume-Inv (get_all_requests h) o now i = on_requests-Inv o i
resume-Inv (handle_status_change_by_admin row h s) o now i = on_status_changed-Inv row s now o i

module _ (format : String → String) where
  step-Inv : (e : Event) (p : LandingPage) → Inv p → Inv (step format e p)
  unfolding step handle_close download
  step-Inv (act j a) p i = elim (Option-cases (take_at j (rows format p.state))) [
    | inl gone ↦ rw (gone, step) i
    | inr ((row, rest), found) ↦ elim (Bool-cases (hidden a row)) [
      | inl h ↦ rw (found, step, h) i
      | inr h ↦ rw (found, step, h) (on_click-Inv a row (hidden-move a row h) i)
    ]
  ]
  step-Inv confirm p i = if-Inv p.state.dialog_open (on_confirm-Inv p i) i
  step-Inv close p i = if-Inv p.state.dialog_open (keep _ refl refl i) i
  step-Inv (export d) p i = keep _ refl refl i
  step-Inv (answer j o now) p i = elim (Option-cases (take_at j p.pending)) [
    | inl gone ↦ rw (gone, step) i
    | inr ((c, rest), found) ↦
        rw (found, step)
          (resume-Inv c o now (record {
            calls = (All-take_at IsAllowed j p.pending found i.calls).1;
            dialog = i.dialog;
          }))
  ]

  run-Inv : (es : List Event) (p : LandingPage) → Inv p → Inv (run format es p)
  unfolding run
  run-Inv [] p i = i
  run-Inv (e ∷ es) p i = run-Inv es (step format e p) (step-Inv e p i)

  mount-Inv : (p : LandingPage) → Inv p → Inv (component_did_mount p)
  unfolding component_did_mount
  mount-Inv p i = elim (Option-cases (stored_token p.token)) [
    | inl thrown ↦ simp (thrown, component_did_mount) i
    | inr (token, read) ↦ elim (Bool-cases (truthy token)) [
      | inr fails ↦
          simp (read, fails, component_did_mount) (record { calls = i.calls; dialog = i.dialog })
      | inl holds ↦ elim (Option-cases (get token "value")) [
        | inl gone ↦ simp (read, holds, gone, component_did_mount) i
        | inr (v, found) ↦
            simp (read, holds, found, component_did_mount)
              (record { calls = All-append _ _ _ i.calls (tt, tt); dialog = i.dialog })
      ]
    ]
  ]

  opened-Inv : (token : Option Value) → Inv (opened token)
  opened-Inv token = mount-Inv _ (record { calls = tt; dialog = λ row s a b. cc })

  -- In every run of the landing page, each call for a change of status in flight asks for one that
  -- the status of its row, as the op saw it, allows.
  pub run-IsAllowed :
      (token : Option Value) (es : List Event)
      → All IsAllowed (run format es (opened token)).pending
  run-IsAllowed token es = (run-Inv es (opened token) (opened-Inv token)).calls
