-- ===== src/Application/Submission.antt =====
-- The invariant of the application page along every run, and what it says of the requests that the
-- form sends.
use mc_gatekeeper.Prelude.{
  ◌+◌, ◌-◌, ◌≤◌, ◌<◌, String, true, ltb, List, [], ◌∷◌, Memᴰ, count_if, take_at, ◌≡◌, refl, sym,
  inl, inr, Bool-cases, Option-cases, arith, ◌∙◌, ltb→lt, All-mem,
}
use mc_gatekeeper.Js.{Value, Outcome}
use mc_gatekeeper.Page.{mount}
use mc_gatekeeper.Application.{
  initial, email, username, gender, age, application_text, NewRequest, Call, verify, create_request,
  get_skin_image, get_qr_code_content, AppPage, on_resolved, on_submit,
}
use mc_gatekeeper.Application.View.{Handler, change, download_qr, verify_username, submit}
use mc_gatekeeper.Application.Step.{
  Event, fire, solved, answer, timeout, dispatch, resume, is_live, allowed, is_live_lem, step, run,
}
use mc_gatekeeper.Application.Username.{
  Inv, IsCallOk, is_check, Confirmed, call-Inv, settle-Inv, keep-Inv,
}
use mc_gatekeeper.Application.Username.Preserve.{
  handle_input_change-Inv, on_timeout-Inv, on_verify_settled-Inv, on_created-Inv,
  on_verify_username-Inv, on_skin_image-Inv, on_qr_code-Inv,
}

module _ (t : String → String) where
  dispatch-Inv :
      (h : Handler) (v : String) {p : AppPage}
      → allowed h p.state.verified p.state.loading ≡ true
      → Inv p
      → Inv (dispatch t h v p)
  unfolding dispatch on_submit
  dispatch-Inv (change email) v a i = handle_input_change-Inv email v (λ e. absurd (cc)) i
  dispatch-Inv (change username) v a i =
      handle_input_change-Inv username v (λ e. (ground arith, ground arith)) i
  dispatch-Inv (change gender) v a i = handle_input_change-Inv gender v (λ e. absurd (cc)) i
  dispatch-Inv (change age) v a i = handle_input_change-Inv age v (λ e. absurd (cc)) i
  dispatch-Inv (change application_text) v a i =
      handle_input_change-Inv application_text v (λ e. absurd (cc)) i
  dispatch-Inv download_qr v a i = i
  dispatch-Inv verify_username v a i = on_verify_username-Inv t (ground arith) (ground arith) i
  dispatch-Inv submit v a i = record {
    calls = i.calls;
    single = i.single;
    challenged = λ c. a;
    confirmed = i.confirmed;
  }

  resume-Inv :
      (c : Call) (o : Outcome) {p : AppPage}
      → Memᴰ (c, o) p.settled
      → IsCallOk p.settled p.state c
      → count_if is_check p.pending + count_if is_check (c ∷ []) ≤ 1
      → Inv p
      → Inv (resume t c o p)
  unfolding resume
  resume-Inv (verify response) o m ok n i = on_verify_settled-Inv o ok i
  resume-Inv (create_request r) o m ok n i = on_created-Inv t o i
  resume-Inv (get_skin_image name) o m ok n i = on_skin_image-Inv t name o m ok (omega arith) i
  resume-Inv (get_qr_code_content name url) o m (ok, served) n i =
      on_qr_code-Inv t name url o m ok served (omega arith) i

  on_resolved-Inv :
      (response : Value) {p : AppPage}
      → 0 < p.challenges
      → Inv p
      → Inv (on_resolved response (record p { challenges = p.challenges - 1 }))
  unfolding on_resolved
  on_resolved-Inv response {p} c i =
      call-Inv (verify response) (i.challenged c) (omega (arith, i.single)) (record {
        calls = i.calls;
        single = i.single;
        challenged = λ _. i.challenged c;
        confirmed = i.confirmed;
      })

  -- Every event keeps the invariant.
  pub step-Inv : (e : Event) (p : AppPage) → Inv p → Inv (step t e p)
  unfolding step
  step-Inv (fire h v) p i = elim (Bool-cases (is_live t h p.state)) [
    | inl l ↦ rw l (dispatch-Inv h v (sym (is_live_lem t h p.state) ∙ l) i)
    | inr l ↦ rw l i
  ]
  step-Inv (solved response) p i = elim (Bool-cases (ltb 0 p.challenges)) [
    | inl c ↦ rw c (on_resolved-Inv response (ltb→lt _ _ c) i)
    | inr c ↦ rw c i
  ]
  step-Inv (answer j o) p i = elim (Option-cases (take_at j p.pending)) [
    | inl gone ↦ rw (gone, step) i
    | inr ((c, rest), found) ↦
        let (ok, n, i') = settle-Inv j c o rest found i in
        rw (found, step) (resume-Inv c o (Memᴰ.head refl) ok n i')
  ]
  step-Inv timeout p i = elim (Bool-cases (ltb 0 p.timers)) [
    | inl c ↦ rw c (on_timeout-Inv (keep-Inv p.state _ refl refl refl i))
    | inr c ↦ rw c i
  ]

  pub run-Inv : (es : List Event) (p : AppPage) → Inv p → Inv (run t es p)
  unfolding run
  run-Inv [] p i = i
  run-Inv (e ∷ es) p i = run-Inv es (step t e p) (step-Inv e p i)

  pub mount-Inv : Inv (mount initial)
  mount-Inv = record {
    calls = tt;
    single = omega arith;
    challenged = λ c. absurd (omega arith);
    confirmed = λ e. absurd (cc);
  }

  -- In every run of the page, whatever the user does and in whatever order the answers come, a
  -- `createRequest` in flight names an account whose skin the page had fetched, and whose skin's
  -- picture had been read as the verification code.
  pub run-create_request-Confirmed :
      (es : List Event) (r : NewRequest)
      → Memᴰ (create_request r) (run t es (mount initial)).pending
      → Confirmed (run t es (mount initial)).settled r.username
  run-create_request-Confirmed es r m =
      let p = run t es (mount initial) in
      All-mem (IsCallOk p.settled p.state) p.pending (run-Inv es (mount initial) mount-Inv).calls m

  -- At most one check of a username is in flight, in every run of the page.
  pub run-single_check :
      (es : List Event) → count_if is_check (run t es (mount initial)).pending ≤ 1
  run-single_check es = (run-Inv es (mount initial) mount-Inv).single
