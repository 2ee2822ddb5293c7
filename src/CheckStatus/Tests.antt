-- ===== src/CheckStatus/Tests.antt =====
-- Runs of the status page, and the theorems about it at concrete inputs.
use mc_gatekeeper.Prelude.{String, some, List, [], ◌∷◌, take_at, ◌≡◌, refl}
use mc_gatekeeper.Js.{str, fulfilled, rejected}
use mc_gatekeeper.CheckStatus.{on_request, Event, answer, step, run, opened, render}
use mc_gatekeeper.Jsx.{element, text, nil, ◌⊹◌}

abbrev keys : String → String
keys k = k

abbrev answers : List Event
answers =
    answer 1 (rejected (some 500))
    ∷ answer 0 (rejected (some 404))
    ∷ answer 0 (fulfilled 200 (str "late"))
    ∷ []

unknown_link :
    render keys (λ v. "an hour ago") (run answers (opened "id")).state
    ≡ some (element "div" [] (element "h1" [] (text "Invalid" ⊹ nil) ⊹ nil))
unfolding run step on_request take_at render
unknown_link = refl
