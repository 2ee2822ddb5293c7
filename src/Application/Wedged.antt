-- ===== src/Application/Wedged.antt =====
-- A form of the application page that is stuck.
use mc_gatekeeper.Prelude.{
  ℕ, String, Bool, true, false, nat_eq, ltb, none, some, List, [], ◌∷◌, take_at, if◌then◌else◌, ◌≡◌,
  refl, sym, inl, inr, count_if, count_if-append, count_if-take_at, Bool-cases, Option-cases, arith,
  ◌∙◌,
}
use mc_gatekeeper.Js.{Outcome, fulfilled, rejected, get, truthy}
use mc_gatekeeper.Page.{mount}
use mc_gatekeeper.Application.{
  State, initial, email, username, gender, age, application_text, Call, verify, create_request,
  get_skin_image, get_qr_code_content, AppPage, on_resolved, handle_input_change, on_verify_settled,
  on_created, on_verify_username, on_timeout, is_blank, new_request,
}
use mc_gatekeeper.Application.View.{Handler, change, download_qr, verify_username, submit}
use mc_gatekeeper.Application.Step.{
  Event, fire, solved, answer, timeout, dispatch, resume, is_live, is_live_lem, step, run,
}
use mc_gatekeeper.Application.Username.{is_check}
use mc_gatekeeper.Application.Submission.{run-Inv, mount-Inv}
use mc_gatekeeper.Application.Answers.{IsWedged}
use mc_gatekeeper.Application.Username.Preserve.{idle-page}

module _ (t : String → String) where
  -- A wedged page stays wedged, whatever happens.
  IsWedged-set :
      {p : AppPage} (s : State) (n : ℕ)
      → s.loading ≡ p.state.loading
      → s.verified ≡ p.state.verified
      → IsWedged p
      → IsWedged (record p { state = s; timers = n })
  IsWedged-set s n l v w = record {
    spinning = l ∙ w.spinning;
    unverified = v ∙ w.unverified;
    idle = w.idle;
  }

  dispatch-IsWedged :
      (h : Handler) (v : String) {p : AppPage}
      → is_live t h p.state ≡ true
      → IsWedged p
      → IsWedged (dispatch t h v p)
  unfolding dispatch handle_input_change
  dispatch-IsWedged (change email) v l w = IsWedged-set _ _ refl refl w
  dispatch-IsWedged (change username) v {p} l w =
      absurd (ground (arith, w.spinning, is_live_lem t (change username) p.state))
  dispatch-IsWedged (change gender) v l w = IsWedged-set _ _ refl refl w
  dispatch-IsWedged (change age) v l w = IsWedged-set _ _ refl refl w
  dispatch-IsWedged (change application_text) v l w = IsWedged-set _ _ refl refl w
  dispatch-IsWedged download_qr v l w = w
  dispatch-IsWedged verify_username v {p} l w =
      absurd (ground (arith, w.spinning, is_live_lem t verify_username p.state))
  dispatch-IsWedged submit v {p} l w =
      absurd (ground (arith, w.unverified, is_live_lem t submit p.state))

  if-IsWedged : (b : Bool) (p q : AppPage) → IsWedged p → IsWedged q → IsWedged (if b then p else q)
  if-IsWedged true p q h k = h
  if-IsWedged false p q h k = k

  on_verify_settled-IsWedged :
      (o : Outcome) {p : AppPage} → IsWedged p → IsWedged (on_verify_settled o p)
  unfolding on_verify_settled
  on_verify_settled-IsWedged (rejected response) w = w
  on_verify_settled-IsWedged (fulfilled status body) {p} w =
      elim (Option-cases (get body "success")) [
        | inl thrown ↦ rw (thrown, on_verify_settled) (if-IsWedged (nat_eq status 200) p p w w)
        | inr (success, found) ↦
            rw (found, on_verify_settled)
              (if-IsWedged (nat_eq status 200) _ p
                (if-IsWedged (truthy success) _ p
                  (record {
                    spinning = w.spinning;
                    unverified = w.unverified;
                    idle = omega (
                      arith,
                      w.idle,
                      count_if-append is_check p.pending
                          (create_request (new_request p.state) ∷ []),
                    );
                  })
                  w)
                w)
      ]

  on_created-IsWedged : (o : Outcome) {p : AppPage} → IsWedged p → IsWedged (on_created t o p)
  unfolding on_created
  on_created-IsWedged (rejected none) w = w
  on_created-IsWedged (fulfilled status body) w =
      if-IsWedged (nat_eq status 201) _ _ (IsWedged-set _ _ refl refl w) w
  on_created-IsWedged (rejected (some status)) w =
      if-IsWedged (nat_eq status 422) _ _ (IsWedged-set _ _ refl refl w) (
        if-IsWedged (nat_eq status 409) _ _ (IsWedged-set _ _ refl refl w) (
          if-IsWedged (nat_eq status 403) _ _ (IsWedged-set _ _ refl refl w)
            (if-IsWedged (nat_eq status 500) _ _ (IsWedged-set _ _ refl refl w) w)))

  resume-IsWedged :
      (c : Call) (o : Outcome) {p : AppPage}
      → count_if is_check (c ∷ []) ≡ 0
      → IsWedged p
      → IsWedged (resume t c o p)
  unfolding resume
  resume-IsWedged (verify response) o n w = on_verify_settled-IsWedged o w
  resume-IsWedged (create_request r) o n w = on_created-IsWedged o w
  resume-IsWedged (get_skin_image name) o n w = absurd (omega arith)
  resume-IsWedged (get_qr_code_content name url) o n w = absurd (omega arith)

  step-IsWedged : (e : Event) {p : AppPage} → IsWedged p → IsWedged (step t e p)
  unfolding step on_resolved on_timeout
  step-IsWedged (fire h v) {p} w = elim (Bool-cases (is_live t h p.state)) [
    | inl l ↦ rw l (dispatch-IsWedged h v l w)
    | inr l ↦ rw l w
  ]
  step-IsWedged (solved response) {p} w =
      if-IsWedged (ltb 0 p.challenges) _ p
        (record {
          spinning = w.spinning;
          unverified = w.unverified;
          idle = omega (arith, w.idle, count_if-append is_check p.pending (verify response ∷ []));
        })
        w
  step-IsWedged (answer j o) {p} w = elim (Option-cases (take_at j p.pending)) [
    | inl gone ↦ rw (gone, step) w
    | inr ((c, rest), found) ↦
        let n = count_if-take_at is_check j p.pending found in
        rw (found, step)
          (resume-IsWedged c o (omega (arith, n, w.idle)) (record {
            spinning = w.spinning;
            unverified = w.unverified;
            idle = omega (arith, n, w.idle);
          }))
  ]
  step-IsWedged timeout {p} w =
      if-IsWedged (ltb 0 p.timers) _ p
        (record { spinning = w.spinning; unverified = w.unverified; idle = w.idle }) w

  run-IsWedged : (es : List Event) {p : AppPage} → IsWedged p → IsWedged (run t es p)
  unfolding run
  run-IsWedged [] w = w
  run-IsWedged (e ∷ es) w = run-IsWedged es (step-IsWedged e w)

  -- A wedged page stays wedged whatever happens, and never again are the username's input, the
  -- verify button or the submit button in reach.
  pub run-IsWedged_forever :
      (es : List Event) {p : AppPage}
      → IsWedged p
      → let q = run t es p in
        IsWedged q
        × (is_live t submit q.state ≡ false)
        × (is_live t verify_username q.state ≡ false)
        × (is_live t (change username) q.state ≡ false)
  run-IsWedged_forever es {p} w =
      let q = run t es p in
      let k = run-IsWedged es w in
      (
        k,
        ground (arith, k.unverified, is_live_lem t submit q.state),
        ground (arith, k.spinning, is_live_lem t verify_username q.state),
        ground (arith, k.spinning, is_live_lem t (change username) q.state),
      )

  -- In every run: where the verify button is in reach and the username is blank, clicking it
  -- wedges the page.
  pub blank_username-IsWedged :
      (es : List Event) (v : String)
      → let p = run t es (mount initial) in
        is_live t verify_username p.state ≡ true
        → is_blank p.state.username ≡ true
        → IsWedged (step t (fire verify_username v) p)
  unfolding step dispatch on_verify_username
  blank_username-IsWedged es v l blank =
      let p = run t es (mount initial) in
      let may = sym (is_live_lem t verify_username p.state) ∙ l in
      let i = run-Inv t es (mount initial) (mount-Inv t) in
      rw (l, blank)
        (record { spinning = refl; unverified = ground arith; idle = idle-page i (ground arith) })
