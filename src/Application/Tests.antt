-- ===== src/Application/Tests.antt =====
-- Runs of the application page, and the theorems about it at concrete inputs.
use mc_gatekeeper.Prelude.{String, true, false, List, [], ◌∷◌, ◌++◌, Memᴰ, take_at, ◌≡◌, refl}
use mc_gatekeeper.Js.{Value, null, bool, str, arr, obj, nil, cons, end, field, fulfilled}
use mc_gatekeeper.Page.{mount}
use mc_gatekeeper.Application.{
  initial, username, NewRequest, create_request, AppPage, on_verify_settled, on_created,
  on_verify_username, on_skin_image, on_qr_code, on_timeout, is_blank, read_skin_url, read_symbol,
  is_verification, handle_input_change, on_submit, on_resolved, skin_failed, qr_failed,
}
use mc_gatekeeper.Application.View.{change, verify_username, submit, render, form, message_block}
use mc_gatekeeper.Application.Step.{
  Event, fire, solved, answer, dispatch, resume, is_live, step, run,
}
use mc_gatekeeper.Application.Username.{Confirmed}
use mc_gatekeeper.Application.Submission.{run-create_request-Confirmed}
use mc_gatekeeper.Application.Answers.{IsWedged}
use mc_gatekeeper.Application.Wedged.{run-IsWedged_forever, blank_username-IsWedged}
use mc_gatekeeper.Jsx.{live}

-- A language whose texts are their keys.
abbrev keys : String → String
keys k = k

abbrev skin_at : String → Value
skin_at url = obj (field "skin" (obj (field "url" (str url) end)) end)

abbrev picture : Value → Value → Value
picture error content = arr (
    cons
      (obj (
        field "symbol" (arr (cons (obj (field "error" error (field "data" content end))) nil)) end))
      nil)

abbrev named : List Event
named = fire (change username) "steve" ∷ fire verify_username "" ∷ []

abbrev checked : List Event
checked =
    named
    ++ answer 0 (fulfilled 200 (skin_at "http://t/1"))
      ∷ answer 0 (fulfilled 200 (picture null (str "verified")))
      ∷ fire (change username) "alex"
      ∷ fire submit ""
      ∷ solved (str "token")
      ∷ answer 0 (fulfilled 200 (obj (field "success" (bool true) end)))
      ∷ []

abbrev posted : NewRequest
posted = record { email = ""; username = "steve"; gender = "male"; age = ""; application_text = "" }

-- The names that a run computes with.
running : Unit {0}
unfolding run step dispatch resume is_live live render handle_input_change on_submit on_resolved
    on_verify_settled on_created on_verify_username is_blank on_skin_image skin_failed read_skin_url
    on_qr_code qr_failed read_symbol is_verification on_timeout take_at message_block form
running = tt

checked_posts : (run keys checked (mount initial)).pending ≡ create_request posted ∷ []
unfolding running
checked_posts = refl

run-create_request-Confirmed_example : Confirmed (run keys checked (mount initial)).settled "steve"
unfolding running
run-create_request-Confirmed_example =
    run-create_request-Confirmed keys checked posted (Memᴰ.head refl)

-- A click on the verify button with nothing typed in.
abbrev clicked : AppPage
clicked = step keys (fire verify_username "") (mount initial)

blank_username-IsWedged_example : IsWedged clicked
unfolding running
blank_username-IsWedged_example = blank_username-IsWedged keys [] "" refl refl

clicked_wedges : IsWedged clicked
unfolding running
clicked_wedges = record { spinning = refl; unverified = refl; idle = refl }

run-IsWedged_forever_example :
    let q = run keys checked clicked in
    IsWedged q
    × (is_live keys submit q.state ≡ false)
    × (is_live keys verify_username q.state ≡ false)
    × (is_live keys (change username) q.state ≡ false)
run-IsWedged_forever_example = run-IsWedged_forever keys checked clicked_wedges

-- The page while the skin of "steve" is asked for.
abbrev asking : AppPage
asking = record (mount initial) { state = record initial { username = "steve"; loading = true } }
