-- ===== src/AdminAction/Decision.antt =====
-- The decisions of an op: what each button sends, what each answer does, and what ends them.
use mc_gatekeeper.Prelude.{
  ℕ, ◌+◌, ◌≤◌, String, Bool, true, false, nat_eq, Option, none, some, List, [], ◌∷◌, ◌++◌ as append,
  take_at, ◌≡◌, refl, sym, ◌∙◌, ◌▷◌, arith, count_if, count_if-take_at, inl, inr, Bool-cases,
  Option-cases,
}
use mathlib.Core.Bool.{true≢false}
use Prim.Native.String.{◌++◌}
use mc_gatekeeper.Page.{alert, settle}
use mc_gatekeeper.Js.{Value, str, obj, end, field, get, Outcome, fulfilled, rejected}
use mc_gatekeeper.Services
use mc_gatekeeper.Services.{HttpRequest, patch}
use mc_gatekeeper.AdminAction.{
  Call, verify_admin_token, get_request_by_encoded_id, approve_request, deny_request, ActionPage,
  State, component_did_mount, on_verified, on_request, handle_input_change, on_decision, on_decided,
}
use mc_gatekeeper.AdminAction.View.{Handler, change_note, approve, deny, shows_details}
use mc_gatekeeper.AdminAction.Step.{Event, fire, answer, dispatch, resume, is_live_lem, step, run}

-- The request that each call hands to axios.
unfoldable pub request_of : String → Call → HttpRequest
request_of host (verify_admin_token id adm) = Services.verify_admin_token host id adm
request_of host (get_request_by_encoded_id id) = Services.get_request_by_encoded_id host id
request_of host (approve_request id adm note) = Services.approve_request host id adm note
request_of host (deny_request id adm note) = Services.deny_request host id adm note

abbrev pub verdict : Handler → String
verdict deny = "Denied"
verdict _ = "Approved"

abbrev pub is_decision : Call → Bool
is_decision (approve_request id adm note) = true
is_decision (deny_request id adm note) = true
is_decision _ = false

-- The decisions that the page has sent since it was loaded, answered or not.
abbrev is_decided : Call × Outcome → Bool
is_decided (c, o) = is_decision c

abbrev pub decisions_sent : ActionPage → ℕ
decisions_sent p = count_if is_decision p.pending + count_if is_decided p.settled

module _ (t : String → String) (from_now : Value → String) where
  -- While the details are shown, a click on a button sends one request: a PATCH of the page's
  -- request with the page's token, whose body holds the button's verdict and the note as it stands.
  pub decision-request :
      (host id v : String) (adm : Option String) (h : Handler) (p : ActionPage)
      → shows_details p.state ≡ true
      → (h ≡ change_note → ⊥)
      → (c : Call) × ((step t from_now id adm (fire h v) p).pending ≡ append p.pending (c ∷ []))
        × ((request_of host c).verb ≡ patch)
        × ((request_of host c).url
            ≡ host ++ ("/api/v1/requests/" ++ (id ++ ("?adm=" ++ p.state.admin_token))))
        × ((request_of host c).body
            ≡ obj (field "status" (str (verdict h)) (field "note" (str p.state.note) end)))
        × (is_decision c ≡ true)
  unfolding step dispatch on_decision request_of Services.approve_request Services.deny_request
  decision-request host id v adm change_note p shown real = absurd (real refl)
  decision-request host id v adm approve p shown real =
      rw (is_live_lem t from_now approve p.state, shown)
        (approve_request id p.state.admin_token p.state.note, refl, refl, refl, refl, refl)
  decision-request host id v adm deny p shown real =
      rw (is_live_lem t from_now deny p.state, shown)
        (deny_request id p.state.admin_token p.state.note, refl, refl, refl, refl, refl)

  -- As long as it is not loaded again, nothing makes an invalid page valid, and it sends no decision.
  record IsStopped (n r : ℕ) (p : ActionPage) : Type 0 where
    low : r ≤ p.reloads
    invalid : p.reloads ≡ r → p.state.invalid ≡ true
    decisions : p.reloads ≡ r → decisions_sent p ≡ n

  module _ (id : String) (adm : Option String) (n r : ℕ) where
    stop :
        (s : State) {p : ActionPage}
        → (p.reloads ≡ r → s.invalid ≡ true)
        → IsStopped n r p
        → IsStopped n r (record p { state = s })
    stop s e i = record { low = i.low; invalid = e; decisions = i.decisions }

    on_request-IsStopped :
        (o : Outcome) {p : ActionPage} → IsStopped n r p → IsStopped n r (on_request o p)
    unfolding on_request
    on_request-IsStopped (rejected response) i = stop _ (λ e. refl) i
    on_request-IsStopped (fulfilled status body) i = elim (Bool-cases (nat_eq status 200)) [
      | inr other ↦ rw other i
      | inl ok ↦ elim (Option-cases (get body "request")) [
        | inl thrown ↦ rw (ok, thrown) (stop _ (λ e. refl) i)
        | inr (found, there) ↦ rw (ok, there) (stop _ i.invalid i)
      ]
    ]

    past : {p : ActionPage} → r + 1 ≤ p.reloads → IsStopped n r p
    past more = record {
      low = omega (arith, more);
      invalid = λ e. absurd (omega (arith, more, e));
      decisions = λ e. absurd (omega (arith, more, e));
    }

    mounted-IsStopped :
        (link : Option String) (p : ActionPage)
        → r + 1 ≤ p.reloads
        → IsStopped n r (component_did_mount id link p)
    unfolding component_did_mount
    mounted-IsStopped none p more = past more
    mounted-IsStopped (some a) p more = past more

    alerted : (text : String) {p : ActionPage} → IsStopped n r p → IsStopped n r (alert text p)
    alerted text i = record { low = i.low; invalid = i.invalid; decisions = i.decisions }

    on_decided-IsStopped :
        (o : Outcome) (p : ActionPage) → IsStopped n r p → IsStopped n r (on_decided t id adm o p)
    unfolding on_decided
    on_decided-IsStopped (rejected none) p i = i
    on_decided-IsStopped (rejected (some status)) p i = elim (Bool-cases (nat_eq status 400)) [
      | inl a ↦ rw a (alerted _ i)
      | inr a ↦ rw a (alerted _ i)
    ]
    on_decided-IsStopped (fulfilled status body) p i = elim (Bool-cases (nat_eq status 200)) [
      | inl a ↦ rw a (mounted-IsStopped adm _ (omega (arith, i.low)))
      | inr a ↦ rw a i
    ]

    resume-IsStopped :
        (c : Call) (o : Outcome) (p : ActionPage)
        → IsStopped n r p
        → IsStopped n r (resume t from_now id adm c o p)
    unfolding resume on_verified
    resume-IsStopped (verify_admin_token i a) (fulfilled status body) p v = v
    resume-IsStopped (verify_admin_token i a) (rejected response) p v = stop _ (λ e. refl) v
    resume-IsStopped (get_request_by_encoded_id i) o p v = on_request-IsStopped o v
    resume-IsStopped (approve_request i a note) o p v = on_decided-IsStopped o p v
    resume-IsStopped (deny_request i a note) o p v = on_decided-IsStopped o p v

    hidden : (s : State) → s.invalid ≡ true → shows_details s ≡ false
    unfolding shows_details
    hidden s e = rw e

    -- The buttons of a page that shows the details do not load it again.
    dispatch-IsStopped :
        (h : Handler) (v : String) (p : ActionPage)
        → shows_details p.state ≡ true
        → IsStopped n r p
        → IsStopped n r (dispatch id h v p)
    unfolding dispatch handle_input_change on_decision
    dispatch-IsStopped change_note v p shown i = record {
      low = i.low;
      invalid = λ e. absurd (true≢false (sym shown ∙ hidden p.state (i.invalid e)));
      decisions = λ e. absurd (true≢false (sym shown ∙ hidden p.state (i.invalid e)));
    }
    dispatch-IsStopped approve v p shown i = record {
      low = i.low;
      invalid = λ e. absurd (true≢false (sym shown ∙ hidden p.state (i.invalid e)));
      decisions = λ e. absurd (true≢false (sym shown ∙ hidden p.state (i.invalid e)));
    }
    dispatch-IsStopped deny v p shown i = record {
      low = i.low;
      invalid = λ e. absurd (true≢false (sym shown ∙ hidden p.state (i.invalid e)));
      decisions = λ e. absurd (true≢false (sym shown ∙ hidden p.state (i.invalid e)));
    }

    step-IsStopped :
        (e : Event) (p : ActionPage) → IsStopped n r p → IsStopped n r (step t from_now id adm e p)
    unfolding step
    step-IsStopped (fire h v) p i = elim (Bool-cases (shows_details p.state)) [
      | inr off ↦ rw (is_live_lem t from_now h p.state, off) i
      | inl shown ↦ rw (is_live_lem t from_now h p.state, shown) (dispatch-IsStopped h v p shown i)
    ]
    step-IsStopped (answer j o) p i = elim (Option-cases (take_at j p.pending)) [
      | inl gone ↦ rw (gone, step) i
      | inr ((c, rest), found) ↦
          let left = count_if-take_at is_decision j p.pending found in
          rw (found, step)
            (resume-IsStopped c o (p ▷ settle c o rest) (record {
              low = i.low;
              invalid = i.invalid;
              decisions = λ e. omega (arith, i.decisions e, left);
            }))
    ]

    run-IsStopped :
        (es : List Event) (p : ActionPage)
        → IsStopped n r p
        → IsStopped n r (run t from_now id adm es p)
    unfolding run
    run-IsStopped [] p i = i
    run-IsStopped (e ∷ es) p i =
        run-IsStopped es (step t from_now id adm e p) (step-IsStopped e p i)

  -- An invalid page that has not been loaded again is still invalid, does not show the details and
  -- has sent no further decision, whatever else has happened.
  pub run-invalid_forever :
      (id : String) (adm : Option String) (es : List Event) (p : ActionPage)
      → p.state.invalid ≡ true
      → (run t from_now id adm es p).reloads ≡ p.reloads
      → let q = run t from_now id adm es p in
        (q.state.invalid ≡ true)
        × (shows_details q.state ≡ false)
        × (decisions_sent q ≡ decisions_sent p)
  run-invalid_forever id adm es p e same =
      let n = decisions_sent p in
      let start : IsStopped n p.reloads p = record {
        low = omega arith;
        invalid = λ h. e;
        decisions = λ h. refl;
      } in
      let k = run-IsStopped id adm n p.reloads es p start in
      let off = k.invalid same in (off, hidden id adm n p.reloads _ off, k.decisions same)
