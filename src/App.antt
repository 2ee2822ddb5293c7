-- ===== src/App.antt =====
-- app/src/App.js: the routes of the browser application. How a path is matched is react-router's:
-- `matches exact path url` says whether a `Route` with that path takes a URL.
mod Tests
use mc_gatekeeper.Prelude.{
  String, Bool, true, false, Option, none, some, List, [], ◌∷◌, if◌then◌else◌,
}

pub data Component : Type 0 where
  check_status admin_action dashboard login application : Component

pub record Route : Type 0 where
  pub path : String
  pub exact : Bool
  pub component : Component

unfoldable pub routes : List Route
routes =
    record { path = "/status/:id"; exact = true; component = check_status }
    ∷ record { path = "/action/:id"; exact = true; component = admin_action }
    ∷ record { path = "/dashboard"; exact = true; component = dashboard }
    ∷ record { path = "/login"; exact = true; component = login }
    ∷ record { path = "/"; exact = false; component = application }
    ∷ []

module _ (matches : Bool → String → String → Bool) where
  -- `Switch`: the first route that matches.
  unfoldable pub switch : List Route → String → Option Component
  switch [] url = none
  switch (r ∷ rest) url =
      let later = switch rest url in if matches r.exact r.path url then some r.component else later

  -- `App.render`
  unfoldable pub shown : String → Option Component
  unfolding routes switch
  shown url = switch routes url
