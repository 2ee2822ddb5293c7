-- ===== src/Dashboard/Landing/Conflict.antt =====
-- Two decisions on one row.
use mc_gatekeeper.Prelude.{ℕ, String, false, some, List, [], ◌∷◌, ◌++◌, take_at, ◌≡◌, refl, ◌∙◌, ap}
use mc_gatekeeper.Dashboard.{WhitelistRequest}
use mc_gatekeeper.Dashboard.Landing.{
  handle_status_change_by_admin, LandingPage, on_status_change, rows, Action, approve, deny, hidden,
  on_click,
}
use mc_gatekeeper.Dashboard.Landing.Step.{act, step, run}

-- A click on an offered action whose handler asks at once.
ask-page :
    (format : String → String) (a : Action) (s : String) (i : ℕ) (row : WhitelistRequest)
    (rest : List WhitelistRequest) (header : String) (p : LandingPage)
    → take_at i (rows format p.state) ≡ some (row, rest)
    → hidden a row ≡ false
    → on_click a row p ≡ on_status_change row s p
    → p.state.auth_header ≡ some header
    → step format (act i a) p
      ≡ record p { pending = p.pending ++ handle_status_change_by_admin row header s ∷ [] }
unfolding step on_status_change
ask-page format a s i row rest header p found offered clicked auth =
    rw (found, step, offered) (clicked ∙ simp (auth, on_status_change) refl)

-- Nothing locks a row while a change of its status is in flight: the op can approve and deny one
-- pending row before either is answered, and both requests are sent.
pub act-twice :
    (format : String → String) (i : ℕ) (row : WhitelistRequest) (rest : List WhitelistRequest)
    (header : String) (p : LandingPage)
    → take_at i (rows format p.state) ≡ some (row, rest)
    → row.status ≡ "Pending"
    → p.state.auth_header ≡ some header
    → (run format (act i approve ∷ act i deny ∷ []) p).pending
      ≡ (p.pending ++ handle_status_change_by_admin row header "Approved" ∷ [])
        ++ handle_status_change_by_admin row header "Denied" ∷ []
unfolding run on_click hidden
act-twice format i row rest header p found waiting auth =
    let one =
      ask-page format approve "Approved" i row rest header p found (rw waiting refl) refl auth in
    let two =
      ask-page format deny "Denied" i row rest header
        (record p {
          pending = p.pending ++ handle_status_change_by_admin row header "Approved" ∷ [];
        })
        found (rw waiting refl) refl auth in
    ap (λ (q : LandingPage). (step format (act i deny) q).pending) one
    ∙ ap (λ (q : LandingPage). q.pending) two
