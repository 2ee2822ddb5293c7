-- ===== src/Dashboard/Landing/Locked.antt =====
-- The landing page in a browser without a token.
use mc_gatekeeper.Prelude.{String, false, Option, none, some, List, [], ◌∷◌, take_at, ◌≡◌, refl}
use mc_gatekeeper.Js.{Value, truthy}
use mc_gatekeeper.Page.{stored_token}
use mc_gatekeeper.Dashboard.Landing.{LandingPage, component_did_mount, download, rows}
use mc_gatekeeper.Dashboard.Landing.Step.{
  Event, act, confirm, close, answer, export, step, run, opened,
}

record IsLocked (p : LandingPage) : Type 0 where
  no_rows : p.state.requests ≡ none
  no_dialog : p.state.dialog_open ≡ false
  no_calls : p.pending ≡ []
  sent_away : p.pushed ≡ "/login" ∷ []

module _ (format : String → String) where
  no_rows-rows : (p : LandingPage) → IsLocked p → rows format p.state ≡ []
  unfolding rows
  no_rows-rows p i = rw i.no_rows refl

  step-IsLocked : (e : Event) (p : LandingPage) → IsLocked p → IsLocked (step format e p)
  unfolding step download take_at
  step-IsLocked (act j a) p i = simp (no_rows-rows p i, step) i
  step-IsLocked confirm p i = simp (i.no_dialog, step) i
  step-IsLocked close p i = simp (i.no_dialog, step) i
  step-IsLocked (export d) p i = record {
    no_rows = i.no_rows;
    no_dialog = i.no_dialog;
    no_calls = i.no_calls;
    sent_away = i.sent_away;
  }
  step-IsLocked (answer j o now) p i = simp (i.no_calls, step) i

  run-IsLocked : (es : List Event) (p : LandingPage) → IsLocked p → IsLocked (run format es p)
  unfolding run
  run-IsLocked [] p i = i
  run-IsLocked (e ∷ es) p i = run-IsLocked es (step format e p) (step-IsLocked e p i)

  -- A landing page that is opened where no token is stored, or one that counts as false, goes to
  -- the login page once; it shows no row and sends no call, whatever happens.
  pub run-locked :
      (token : Option Value) (v : Value) (es : List Event)
      → stored_token token ≡ some v
      → truthy v ≡ false
      → let p = run format es (opened token) in
        (rows format p.state ≡ []) × (p.pending ≡ []) × (p.pushed ≡ "/login" ∷ [])
  unfolding component_did_mount
  run-locked token v es read fails =
      let start : IsLocked (opened token) =
        simp (read, fails, component_did_mount)
          (record { no_rows = refl; no_dialog = refl; no_calls = refl; sent_away = refl }) in
      let i = run-IsLocked es (opened token) start in (no_rows-rows _ i, i.no_calls, i.sent_away)
