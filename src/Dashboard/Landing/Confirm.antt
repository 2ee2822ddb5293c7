-- ===== src/Dashboard/Landing/Confirm.antt =====
-- Deactivations and bans, and the dialog.
use mc_gatekeeper.Prelude.{
  ℕ, ◌▷◌, ◌+◌, ◌∙◌, refl, String, Bool, true, false, ◌||◌, ◌==◌, Option, none, some, List, [], ◌∷◌,
  any, take_at, ◌≡◌, arith, count_if, count_if-take_at, count_if-append, inl, inr, Bool-cases,
  Option-cases,
}
use mathlib.Core.Bool.{true≢false}
use mc_gatekeeper.Js.{Reply, fulfilled, rejected}
use mc_gatekeeper.Page.{settle}
use mc_gatekeeper.Dashboard.{WhitelistRequest}
use mc_gatekeeper.Dashboard.Landing.{
  Call, get_all_requests, handle_status_change_by_admin, LandingPage, on_requests, on_status_change,
  on_status_changed, handle_change_request_status, handle_close, on_attempt_action, download, rows,
  Action, approve, deny, deactivate, ban, hidden, on_click,
}
use mc_gatekeeper.Dashboard.Landing.Step.{
  Event, act, confirm, close, answer, export, resume, step, run,
}

abbrev pub is_drastic : Call → Bool
is_drastic (get_all_requests header) = false
is_drastic (handle_status_change_by_admin request header s) = s == "Deactivated" || s == "Banned"

abbrev pub is_confirm : Event → Bool
is_confirm confirm = true
is_confirm _ = false

or-false : (a : Bool) {b : Bool} → (a || b) ≡ false → (a ≡ false) × (b ≡ false)
or-false true e = absurd (true≢false e)
or-false false e = (refl, e)

abbrev has_drastic : Call × Reply (Option (List WhitelistRequest)) → Bool
has_drastic (c, o) = is_drastic c

-- The deactivations and bans that the page has sent, answered or not.
abbrev pub drastic : LandingPage → ℕ
drastic p = count_if is_drastic p.pending + count_if has_drastic p.settled

-- A click on a row's button starts no deactivation and no ban.
ask-mild :
    (row : WhitelistRequest) (s : String) (p : LandingPage)
    → (s == "Deactivated" || s == "Banned") ≡ false
    → drastic (on_status_change row s p) ≡ drastic p
unfolding on_status_change
ask-mild row s p mild = elim (Option-cases p.state.auth_header) [
  | inl gone ↦ simp (gone, on_status_change) (omega arith)
  | inr (h, there) ↦
      let added : count_if is_drastic (handle_status_change_by_admin row h s ∷ []) ≡ 0 =
        rw mild refl in
      simp (there, on_status_change)
        (omega (
          arith,
          count_if-append is_drastic p.pending (handle_status_change_by_admin row h s ∷ []),
          added,
        ))
]

click-mild :
    (a : Action) (row : WhitelistRequest) (p : LandingPage) → drastic (on_click a row p) ≡ drastic p
unfolding on_click on_attempt_action
click-mild approve row p = ask-mild row "Approved" p refl
click-mild deny row p = ask-mild row "Denied" p refl
click-mild deactivate row p = omega arith
click-mild ban row p = omega arith

-- An answer starts nothing.
resume-drastic :
    (c : Call) (o : Reply (Option (List WhitelistRequest))) (now : String) (p : LandingPage)
    → drastic (resume c o now p) ≡ drastic p
unfolding resume on_requests on_status_changed handle_change_request_status
resume-drastic (get_all_requests h) (rejected r) now p = refl
resume-drastic (get_all_requests h) (fulfilled status body) now p = ground arith
resume-drastic (handle_status_change_by_admin row h s) (rejected none) now p = refl
resume-drastic (handle_status_change_by_admin row h s) (rejected (some status)) now p = ground arith
resume-drastic (handle_status_change_by_admin row h s) (fulfilled status body) now p = ground arith

module _ (format : String → String) where
  step-mild :
      (e : Event) (p : LandingPage) → is_confirm e ≡ false → drastic (step format e p) ≡ drastic p
  unfolding step handle_close download
  step-mild (act i a) p quiet = elim (Option-cases (take_at i (rows format p.state))) [
    | inl gone ↦ rw (gone, step) (omega arith)
    | inr ((row, rest), found) ↦ elim (Bool-cases (hidden a row)) [
      | inl h ↦ rw (found, step, h) (omega arith)
      | inr h ↦ rw (found, step, h) (click-mild a row p)
    ]
  ]
  step-mild confirm p quiet = cc
  step-mild close p quiet = ground arith
  step-mild (export d) p quiet = omega arith
  step-mild (answer j o now) p quiet = elim (Option-cases (take_at j p.pending)) [
    | inl gone ↦ rw (gone, step) (omega arith)
    | inr ((c, rest), found) ↦
        let left = count_if-take_at is_drastic j p.pending found in
        let same = resume-drastic c o now (p ▷ settle c o rest) in
        rw (found, step) (omega (arith, left, same))
  ]

  -- Without a confirmation in the dialog the number of deactivations and bans that the page has sent,
  -- answered or not, stays the same, whatever else happens.
  pub run-unconfirmed :
      (es : List Event) (p : LandingPage)
      → any is_confirm es ≡ false
      → drastic (run format es p) ≡ drastic p
  unfolding run
  run-unconfirmed [] p quiet = refl
  run-unconfirmed (e ∷ es) p quiet =
      let (first, later) = or-false (is_confirm e) quiet in
      let one = step-mild e p first in run-unconfirmed es (step format e p) later ∙ one
