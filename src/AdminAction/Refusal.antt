-- ===== src/AdminAction/Refusal.antt =====
-- What the refusal of the link's token, or of its request, does to the action page.
use mc_gatekeeper.Prelude.{
  String, Bool, true, false, nat_eq, Option, none, some, List, [], ◌∷◌, any, take_at, ◌≡◌, refl,
  sym, ◌∙◌, inl, inr, Bool-cases, Option-cases, if◌then◌else◌, ◌▷◌,
}
use mathlib.Core.Bool.{true≢false}
use mc_gatekeeper.Js.{Value, get, Outcome, fulfilled, rejected}
use mc_gatekeeper.Page.{settle}
use mc_gatekeeper.AdminAction.{
  State, Call, verify_admin_token, get_request_by_encoded_id, approve_request, deny_request,
  ActionPage, component_did_mount, on_verified, on_request, handle_input_change, on_decision,
  on_decided,
}
use mc_gatekeeper.AdminAction.View.{Handler, change_note, approve, deny, shows_details}
use mc_gatekeeper.AdminAction.Step.{
  Event, fire, answer, dispatch, resume, is_live, step, run, opened,
}

-- A failed verification of the token, or a failed call for the request.
abbrev pub is_refused : Call × Outcome → Bool
is_refused (verify_admin_token id adm, rejected response) = true
is_refused (get_request_by_encoded_id id, rejected response) = true
is_refused _ = false

record Inv (p : ActionPage) : Type 0 where
  hides : any is_refused p.settled ≡ true → p.state.invalid ≡ true

keep :
    (s : State) {p : ActionPage}
    → s.invalid ≡ p.state.invalid
    → Inv p
    → Inv (record p { state = s })
keep s e i = record { hides = λ h. e ∙ i.hides h }

invalidate : {p : ActionPage} → p.state.invalid ≡ true → Inv p
invalidate e = record { hides = λ h. e }

on_request-Inv :
    (o : Outcome) (id : String) (rest : List Call) (p : ActionPage)
    → Inv p
    → Inv (on_request o (p ▷ settle (get_request_by_encoded_id id) o rest))
unfolding on_request
on_request-Inv (rejected response) id rest p i = invalidate refl
on_request-Inv (fulfilled status body) id rest p i = elim (Bool-cases (nat_eq status 200)) [
  | inr other ↦ rw other (record { hides = i.hides })
  | inl ok ↦ elim (Option-cases (get body "request")) [
    | inl thrown ↦ rw (ok, thrown) (invalidate refl)
    | inr (r, found) ↦ rw (ok, found) (record { hides = i.hides })
  ]
]

if-Inv : (b : Bool) {p q : ActionPage} → Inv p → Inv q → Inv (if b then p else q)
if-Inv true i j = i
if-Inv false i j = j

-- A page that is mounted with nothing settled.
mounted-Inv :
    (id : String) (adm : Option String) (p : ActionPage)
    → any is_refused p.settled ≡ false
    → Inv (component_did_mount id adm p)
unfolding component_did_mount
mounted-Inv id none p e = invalidate refl
mounted-Inv id (some adm) p e = record { hides = λ h. absurd (true≢false (sym h ∙ e)) }

on_decided-Inv :
    (t : String → String) (id : String) (adm : Option String) (o : Outcome) (p : ActionPage)
    → Inv p
    → Inv (on_decided t id adm o p)
unfolding on_decided
on_decided-Inv t id adm (rejected none) p i = i
on_decided-Inv t id adm (rejected (some status)) p i =
    if-Inv (nat_eq status 400) (record { hides = i.hides }) (record { hides = i.hides })
on_decided-Inv t id adm (fulfilled status body) p i =
    if-Inv (nat_eq status 200) (mounted-Inv id adm _ refl) i

module _ (t : String → String) (from_now : Value → String) where
  module _ (id : String) (adm : Option String) where
    resume-Inv :
        (c : Call) (o : Outcome) (rest : List Call) (p : ActionPage)
        → Inv p
        → Inv (resume t from_now id adm c o (p ▷ settle c o rest))
    unfolding resume on_verified
    resume-Inv (verify_admin_token i a) (rejected response) rest p v = invalidate refl
    resume-Inv (verify_admin_token i a) (fulfilled status body) rest p v = record {
      hides = v.hides;
    }
    resume-Inv (get_request_by_encoded_id j) o rest p v = on_request-Inv o j rest p v
    resume-Inv (approve_request i a note) o rest p v =
        on_decided-Inv t id adm o _ (record { hides = v.hides })
    resume-Inv (deny_request i a note) o rest p v =
        on_decided-Inv t id adm o _ (record { hides = v.hides })

    dispatch-Inv : (h : Handler) (v : String) (p : ActionPage) → Inv p → Inv (dispatch id h v p)
    unfolding dispatch handle_input_change on_decision
    dispatch-Inv change_note v p i = keep _ refl i
    dispatch-Inv approve v p i = record { hides = i.hides }
    dispatch-Inv deny v p i = record { hides = i.hides }

    step-Inv : (e : Event) (p : ActionPage) → Inv p → Inv (step t from_now id adm e p)
    unfolding step
    step-Inv (fire h v) p i = if-Inv (is_live t from_now h p.state) (dispatch-Inv h v p i) i
    step-Inv (answer j o) p i = elim (Option-cases (take_at j p.pending)) [
      | inl gone ↦ simp (gone, step) i
      | inr ((c, rest), found) ↦ rw (found, step) (resume-Inv c o rest p i)
    ]

    run-Inv : (es : List Event) (p : ActionPage) → Inv p → Inv (run t from_now id adm es p)
    unfolding run
    run-Inv [] p i = i
    run-Inv (e ∷ es) p i = run-Inv es (step t from_now id adm e p) (step-Inv e p i)

    -- Once the verification of the link's token, or the call for its request, has failed since the
    -- action page was loaded, the page is invalid and does not show the details.
    pub run-refused :
        (es : List Event)
        → any is_refused (run t from_now id adm es (opened t from_now id adm)).settled ≡ true
        → let p = run t from_now id adm es (opened t from_now id adm) in
          (p.state.invalid ≡ true) × (shows_details p.state ≡ false)
    unfolding shows_details
    run-refused es refused =
        let e = (run-Inv es (opened t from_now id adm) (mounted-Inv id adm _ refl)).hides refused in
        (e, rw e refl)
