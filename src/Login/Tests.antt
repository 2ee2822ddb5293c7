-- ===== src/Login/Tests.antt =====
-- Runs of the login page, and the theorems about it at concrete inputs.
use mc_gatekeeper.Prelude.{◌≤◌, String, true, some, List, [], ◌∷◌, take_at, ◌≡◌, refl, count_if}
use mc_gatekeeper.Js.{Value, bool, str, obj, end, field, fulfilled, rejected}
use mc_gatekeeper.Jsx.{live}
use mc_gatekeeper.Page.{mount}
use mc_gatekeeper.Login.{
  initial, log_in, username, password, on_change, login, on_resolved, on_verify_settled,
  on_logged_in, change, submit, render, dispatch, resume, Event, fire, solved, answer, step, run,
}
use mc_gatekeeper.Login.Captcha.{logins, is_passed, run-logins_bound}

abbrev keys : String → String
keys k = k

abbrev jwt : Value
jwt = obj (field "value" (str "jwt") end)

abbrev body : Value
body = obj (field "token" jwt end)

abbrev confirmed : Value
confirmed = obj (field "success" (bool true) end)

running : Unit {0}
unfolding run step dispatch resume on_change login on_resolved on_verify_settled on_logged_in live
    render take_at
running = tt

-- The first captcha fails, the second is confirmed, and the login goes out.
abbrev logging_in : List Event
logging_in =
    fire (change username) "op"
    ∷ fire (change password) "secret"
    ∷ fire submit ""
    ∷ solved (str "a")
    ∷ answer 0 (fulfilled 200 (obj end))
    ∷ fire submit ""
    ∷ solved (str "b")
    ∷ answer 0 (fulfilled 200 confirmed)
    ∷ []

logging_in_sends : (run keys logging_in (mount initial)).pending ≡ log_in "op" "secret" ∷ []
unfolding running
logging_in_sends = refl

logging_in_clears :
    (run keys (answer 0 (rejected (some 401)) ∷ []) (run keys logging_in (mount initial))).state
    ≡ initial
unfolding running
logging_in_clears = refl

run-logins_bound_example :
    let p = run keys logging_in (mount initial) in logins p ≤ count_if is_passed p.settled
run-logins_bound_example = run-logins_bound keys logging_in
