-- ===== src/App/Tests.antt =====
-- Routes with a matching that knows three paths.
use mc_gatekeeper.Prelude.{String, Bool, not, ◌==◌, ◌&&◌, ◌||◌, some, ◌≡◌, refl}
use mc_gatekeeper.App.{check_status, dashboard, application, routes, switch, shown}

abbrev matches : Bool → String → String → Bool
matches exact path url =
    path == url || path == "/status/:id" && url == "/status/7" || not exact && path == "/"

status_page : shown matches "/status/7" ≡ some check_status
unfolding shown routes switch
status_page = refl

dashboard_page : shown matches "/dashboard" ≡ some dashboard
unfolding shown routes switch
dashboard_page = refl

-- Any other path shows the form.
other_page : shown matches "/nowhere" ≡ some application
unfolding shown routes switch
other_page = refl
