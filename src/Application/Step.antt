-- ===== src/Application/Step.antt =====
-- The event loop of the application page: what the user can reach, a solved captcha, a promise
-- that settles and a timer that fires, each a callback that runs to its end.
use mc_gatekeeper.Prelude.{
  ℕ, ◌-◌, String, Bool, true, not, ◌||◌, nat_eq, ltb, none, some, List, [], ◌∷◌, any, take_at,
  if◌then◌else◌, ◌≡◌, arith, ◌▷◌,
}
use mc_gatekeeper.Js.{Value, Outcome}
use mc_gatekeeper.Page.{settle}
use mc_gatekeeper.Jsx.{live}
use mc_gatekeeper.Application.{
  State, email, username, gender, age, application_text, Call, verify, create_request,
  get_skin_image, get_qr_code_content, AppPage, handle_input_change, on_submit, on_resolved,
  on_verify_settled, on_created, on_verify_username, on_skin_image, on_qr_code, on_timeout,
}
use mc_gatekeeper.Application.View.{
  Handler, change, download_qr, verify_username, submit, render, reachable, live-render,
}

-- `fire h v`: the user sets off a handler, with the input's value; `answer i o`: the i-th promise
-- in flight settles.
pub data Event : Type 0 where
  fire : Handler → String → Event
  solved : Value → Event
  answer : ℕ → Outcome → Event
  timeout : Event

abbrev tag : Handler → ℕ
tag (change email) = 0
tag (change username) = 1
tag (change gender) = 2
tag (change age) = 3
tag (change application_text) = 4
tag download_qr = 5
tag verify_username = 6
tag submit = 7

abbrev same_handler : Handler → Handler → Bool
same_handler h k = nat_eq (tag h) (tag k)

abbrev pub allowed : Handler → Bool → Bool → Bool
allowed (change username) verified loading = not (verified || loading)
allowed verify_username verified loading = not (verified || loading)
allowed submit verified loading = verified
allowed _ verified loading = true

any-reachable :
    (h : Handler) (verified loading : Bool)
    → any (same_handler h) (reachable verified loading) ≡ allowed h verified loading
any-reachable (change email) v l = ground arith
any-reachable (change username) v l = ground arith
any-reachable (change gender) v l = ground arith
any-reachable (change age) v l = ground arith
any-reachable (change application_text) v l = ground arith
any-reachable download_qr v l = ground arith
any-reachable verify_username v l = ground arith
any-reachable submit v l = ground arith

module _ (t : String → String) where
  -- The callbacks of each promise.
  unfoldable pub resume : Call → Outcome → AppPage → AppPage
  resume (verify response) o p = on_verify_settled o p
  resume (create_request r) o p = on_created t o p
  resume (get_skin_image name) o p = on_skin_image t name o p
  resume (get_qr_code_content name url) o p = on_qr_code t o p

  -- The handlers of the elements. `downloadQR` writes a file and leaves the page as it is.
  unfoldable pub dispatch : Handler → String → AppPage → AppPage
  dispatch (change name) v p = handle_input_change name v p
  dispatch download_qr v p = p
  dispatch verify_username v p = on_verify_username t p
  dispatch submit v p = on_submit p

  unfoldable pub is_live : Handler → State → Bool
  is_live h s = any (same_handler h) (live (render t s))

  -- An event that nothing stands for on the page leaves it as it is.
  unfoldable pub step : Event → AppPage → AppPage
  unfolding take_at
  step (fire h v) p = if is_live h p.state then dispatch h v p else p
  step (solved response) p =
      if ltb 0 p.challenges
      then on_resolved response (record p { challenges = p.challenges - 1 })
      else p
  step (answer i o) p = elim (take_at i p.pending) [
    | none ↦ p
    | some (c, rest) ↦ resume c o (p ▷ settle c o rest)
  ]
  step timeout p = if ltb 0 p.timers then on_timeout (record p { timers = p.timers - 1 }) else p

  unfoldable pub run : List Event → AppPage → AppPage
  run [] p = p
  run (e ∷ es) p = run es (step e p)

  -- The user reaches `submit` exactly when the username is verified, and the username's input and
  -- the verify button exactly when it is neither verified nor being checked; all else always.
  pub is_live_lem : (h : Handler) (s : State) → is_live h s ≡ allowed h s.verified s.loading
  unfolding is_live
  is_live_lem h s = rw (live-render t s) (any-reachable h s.verified s.loading)
