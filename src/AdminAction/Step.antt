-- ===== src/AdminAction/Step.antt =====
-- The event loop of the action page.
use mc_gatekeeper.Prelude.{
  ℕ, String, Bool, true, false, Option, none, some, List, [], ◌∷◌, any, take_at, if◌then◌else◌, ◌≡◌,
  arith, ◌▷◌,
}
use mc_gatekeeper.Js.{Value, Outcome}
use mc_gatekeeper.Page.{mount, settle}
use mc_gatekeeper.AdminAction.{
  initial, Call, verify_admin_token, get_request_by_encoded_id, approve_request, deny_request,
  ActionPage, State, component_did_mount, on_verified, on_request, handle_input_change, on_decision,
  on_decided,
}
use mc_gatekeeper.AdminAction.View.{
  Handler, change_note, approve, deny, render, reach, shows_details, reach-render,
}

-- `fire h v`: the user sets off a handler, with the note's text; `answer i o`: the i-th promise in
-- flight settles.
pub data Event : Type 0 where
  fire : Handler → String → Event
  answer : ℕ → Outcome → Event

abbrev same_handler : Handler → Handler → Bool
same_handler change_note change_note = true
same_handler approve approve = true
same_handler deny deny = true
same_handler _ _ = false

-- The handlers of the elements.
unfoldable pub dispatch : String → Handler → String → ActionPage → ActionPage
dispatch id change_note v p = handle_input_change v p
dispatch id approve v p = on_decision id "Approved" p
dispatch id deny v p = on_decision id "Denied" p

module _ (t : String → String) (from_now : Value → String) where
  unfoldable pub is_live : Handler → State → Bool
  is_live h s = any (same_handler h) (reach (render t from_now s))

  pub is_live_lem : (h : Handler) (s : State) → is_live h s ≡ shows_details s
  unfolding is_live
  is_live_lem change_note s = rw (reach-render t from_now s) (ground arith)
  is_live_lem approve s = rw (reach-render t from_now s) (ground arith)
  is_live_lem deny s = rw (reach-render t from_now s) (ground arith)

  module _ (id : String) (adm : Option String) where
    -- The callbacks of each promise.
    unfoldable pub resume : Call → Outcome → ActionPage → ActionPage
    resume (verify_admin_token i a) o p = on_verified o p
    resume (get_request_by_encoded_id i) o p = on_request o p
    resume (approve_request i a note) o p = on_decided t id adm o p
    resume (deny_request i a note) o p = on_decided t id adm o p

    -- An event that nothing stands for on the page leaves it as it is.
    unfoldable pub step : Event → ActionPage → ActionPage
    unfolding take_at
    step (fire h v) p = if is_live h p.state then dispatch id h v p else p
    step (answer i o) p = elim (take_at i p.pending) [
      | none ↦ p
      | some (c, rest) ↦ resume c o (p ▷ settle c o rest)
    ]

    unfoldable pub run : List Event → ActionPage → ActionPage
    run [] p = p
    run (e ∷ es) p = run es (step e p)

    -- The page as it is opened with the link's two parameters.
    abbrev pub opened : ActionPage
    opened = component_did_mount id adm (mount initial)
