-- ===== src/AdminAction/Token.antt =====
-- The tokens that the action page sends, and the order of its first two calls.
use mc_gatekeeper.Prelude.{
  String, true, false, nat_eq, none, some, List, [], ◌∷◌, take_at, ◌≡◌, refl, All, All-append,
  All-take_at, inl, inr, Bool-cases, Option-cases, ◌∙◌,
}
use mc_gatekeeper.Js.{Value, get, Outcome, fulfilled, rejected}
use mc_gatekeeper.AdminAction.{
  initial, Call, verify_admin_token, get_request_by_encoded_id, approve_request, deny_request,
  ActionPage, State, component_did_mount, on_verified, on_request, handle_input_change, on_decision,
  on_decided, status_is,
}
use mc_gatekeeper.AdminAction.View.{
  Handler, change_note, approve, deny, shows_details, Details, read_details,
}
use mc_gatekeeper.AdminAction.Step.{
  Event, fire, answer, dispatch, resume, is_live, is_live_lem, step, run, opened,
}

-- A call names the request and the token of the page's link.
abbrev pub IsLinked : String → String → Call → Type 0
IsLinked id adm (verify_admin_token i a) = (i ≡ id) × (a ≡ adm)
IsLinked id adm (get_request_by_encoded_id i) = i ≡ id
IsLinked id adm (approve_request i a note) = (i ≡ id) × (a ≡ adm)
IsLinked id adm (deny_request i a note) = (i ≡ id) × (a ≡ adm)

record Inv (id adm : String) (p : ActionPage) : Type 0 where
  token : p.state.admin_token ≡ adm
  calls : All (IsLinked id adm) p.pending

module _ (t : String → String) (from_now : Value → String) (id adm : String) where
  keep :
      (s : State) {p : ActionPage}
      → s.admin_token ≡ adm
      → Inv id adm p
      → Inv id adm (record p { state = s })
  keep s e i = record { token = e; calls = i.calls }

  on_request-Inv : (o : Outcome) {p : ActionPage} → Inv id adm p → Inv id adm (on_request o p)
  unfolding on_request
  on_request-Inv (rejected response) i = keep _ i.token i
  on_request-Inv (fulfilled status body) i = elim (Bool-cases (nat_eq status 200)) [
    | inr other ↦ rw other i
    | inl ok ↦ elim (Option-cases (get body "request")) [
      | inl thrown ↦ rw (ok, thrown) (keep _ i.token i)
      | inr (r, found) ↦ rw (ok, found) (keep _ i.token i)
    ]
  ]

  on_decided-Inv :
      (o : Outcome) {p : ActionPage} → Inv id adm p → Inv id adm (on_decided t id (some adm) o p)
  unfolding on_decided component_did_mount
  on_decided-Inv (rejected none) i = i
  on_decided-Inv (rejected (some status)) i = elim (Bool-cases (nat_eq status 400)) [
    | inl a ↦ rw a (record { token = i.token; calls = i.calls })
    | inr a ↦ rw a (record { token = i.token; calls = i.calls })
  ]
  on_decided-Inv (fulfilled status body) i = elim (Bool-cases (nat_eq status 200)) [
    | inl a ↦ rw a (record { token = refl; calls = ((refl, refl), (refl, tt)) })
    | inr a ↦ rw a i
  ]

  resume-Inv :
      (c : Call) (o : Outcome) {p : ActionPage}
      → Inv id adm p
      → Inv id adm (resume t from_now id (some adm) c o p)
  unfolding resume on_verified
  resume-Inv (verify_admin_token i a) (fulfilled status body) v = v
  resume-Inv (verify_admin_token i a) (rejected response) v = keep _ v.token v
  resume-Inv (get_request_by_encoded_id i) o v = on_request-Inv o v
  resume-Inv (approve_request i a note) o v = on_decided-Inv o v
  resume-Inv (deny_request i a note) o v = on_decided-Inv o v

  dispatch-Inv :
      (h : Handler) (v : String) {p : ActionPage} → Inv id adm p → Inv id adm (dispatch id h v p)
  unfolding dispatch handle_input_change on_decision
  dispatch-Inv change_note v i = keep _ i.token i
  dispatch-Inv approve v i = record {
    token = i.token;
    calls = All-append _ _ _ i.calls ((refl, i.token), tt);
  }
  dispatch-Inv deny v i = record {
    token = i.token;
    calls = All-append _ _ _ i.calls ((refl, i.token), tt);
  }

  step-Inv :
      (e : Event) (p : ActionPage) → Inv id adm p → Inv id adm (step t from_now id (some adm) e p)
  unfolding step
  step-Inv (fire h v) p i = elim (Bool-cases (is_live t from_now h p.state)) [
    | inl l ↦ rw l (dispatch-Inv h v i)
    | inr l ↦ rw l i
  ]
  step-Inv (answer j o) p i = elim (Option-cases (take_at j p.pending)) [
    | inl gone ↦ rw (gone, step) i
    | inr ((c, rest), found) ↦
        rw (found, step)
          (resume-Inv c o (record {
            token = i.token;
            calls = (All-take_at (IsLinked id adm) j p.pending found i.calls).1;
          }))
  ]

  run-Inv :
      (es : List Event) (p : ActionPage)
      → Inv id adm p
      → Inv id adm (run t from_now id (some adm) es p)
  unfolding run
  run-Inv [] p i = i
  run-Inv (e ∷ es) p i = run-Inv es (step t from_now id (some adm) e p) (step-Inv e p i)

  -- In every run of the page of a link, each call in flight, a decision among them, names the
  -- request and the token of that link.
  pub run-IsLinked :
      (es : List Event)
      → All
          (IsLinked id adm)
          (run t from_now id (some adm) es (opened t from_now id (some adm))).pending
  unfolding component_did_mount
  run-IsLinked es =
      (run-Inv es (opened t from_now id (some adm))
        (record { token = refl; calls = ((refl, refl), (refl, tt)) })).calls

  shown :
      (s : State) (d : Details)
      → s.invalid ≡ false
      → status_is "Pending" s.current_request ≡ true
      → read_details s.current_request ≡ some d
      → shows_details s ≡ true
  unfolding shows_details
  shown s d valid waiting read = rw (valid, waiting, read)

  -- The details of a pending request are shown, with the buttons in reach, as soon as the request
  -- has come, while the token is still being verified.
  pub details_before_verification :
      (h : Handler) (body r : Value) (d : Details)
      → get body "request" ≡ some r
      → status_is "Pending" r ≡ true
      → read_details r ≡ some d
      → let p =
          run t from_now id
            (some adm)
            (answer 1 (fulfilled 200 body) ∷ [])
            (opened t from_now id (some adm)) in
        (shows_details p.state ≡ true)
        × (is_live t from_now h p.state ≡ true)
        × (p.pending ≡ verify_admin_token id adm ∷ [])
  unfolding run step resume component_did_mount on_request
  details_before_verification h body r d found waiting read =
      let seen =
        shown (record initial { admin_token = adm; current_request = r }) d refl waiting read in
      rw found (seen, is_live_lem t from_now h _ ∙ seen, refl)
