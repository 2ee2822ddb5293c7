-- ===== src/Dashboard/Metrics/View.antt =====
-- app/src/components/Dashboard/metrics/metrics.js: `render`.
use mc_gatekeeper.Prelude.{
  String, Bool, true, Option, none, some, List, [], ◌∷◌, map, ◌++◌, ◌==◌, if◌then◌else◌,
}
use mc_gatekeeper.Jsx.{text, element, prop, flag, nil, ◌⊹◌, leaf}
use mc_gatekeeper.Dashboard.Metrics.{
  Stats, Notification, Card, Graphs, insufficient, graphs, get_notification, get_graphs,
  get_stats_cards,
}
use mc_gatekeeper.Dashboard.Metrics.Drawn.{
  Tree, all, status_graph, age_graph, devices, gender_graph,
}
use mc_gatekeeper.Dashboard.Metrics.Cards.{stats_card, performance_chart}

-- variantIcon; the style asks for one of two.
abbrev variant_icon : String → String
variant_icon variant = if variant == "warning" then "WarningIcon" else "CheckCircleIcon"

-- MySnackbarContentWrapper
unfoldable pub my_snackbar_content_wrapper : Notification → Tree
my_snackbar_content_wrapper n =
    element "SnackbarContent"
      (prop "className" n.variant ∷ prop "aria-describedby" "client-snackbar" ∷ [])
      (element "message" [] (
          element "span" (prop "id" "client-snackbar" ∷ prop "className" "message" ∷ []) (
            leaf (variant_icon n.variant) (prop "className" "icon iconVariant" ∷ [])
            ⊹ text n.message
            ⊹ nil)
          ⊹ nil)
        ⊹ nil)

abbrev notification_item : Notification → Tree
notification_item n =
    element "Grid" (flag "item" true ∷ prop "xs" "12" ∷ prop "sm" "12" ∷ prop "height" "100%" ∷ [])
      (my_snackbar_content_wrapper n ⊹ nil)

-- `_getStatsCard`
unfoldable pub get_stats_card : Card → Tree
unfolding stats_card
get_stats_card c =
    element "Grid" (flag "item" true ∷ prop "xs" "12" ∷ prop "sm" "3" ∷ []) (stats_card c ⊹ nil)

-- A graph in its section.
abbrev section : Tree → Tree
section graph =
    element "Grid"
      (flag "item" true ∷ prop "lg" "6" ∷ prop "md" "6" ∷ prop "xl" "6" ∷ prop "xs" "12" ∷ [])
      (element "div"
          (prop "style.height" "100%"
            ∷ prop "style.paddingTop" "5"
            ∷ prop "style.backgroundColor" "#fff"
            ∷ [])
          (graph ⊹ nil)
        ⊹ nil)

module _ {F : Type 0} (palette : String → String) (is_none below_one : F → Bool)
    (to_fixed to_fixed1 : F → String) where
  -- `getGraphs` for the statistics that it shows
  unfoldable pub graph_items : Stats F → Graphs F → List Tree
  unfolding gender_graph devices status_graph age_graph performance_chart
  graph_items s insufficient =
      element "p" [] (text "Insufficient data to generate graph" ⊹ nil) ∷ []
  graph_items s (graphs gender status age rows) =
      section (gender_graph palette gender (devices palette s))
      ∷ section (status_graph status)
      ∷ section (age_graph age)
      ∷ section (performance_chart to_fixed1 rows)
      ∷ []

  abbrev items : Option (Stats F) → Graphs F → List Tree
  items none g = element "p" [] (text "Insufficient data to generate graph" ⊹ nil) ∷ []
  items (some s) g = graph_items s g

  -- `render`, none where it throws.
  unfoldable pub render : Option (Stats F) → Option Tree
  unfolding get_graphs get_notification get_stats_cards get_stats_card graph_items
  render stats = elim (get_graphs stats) [
    | none ↦ none
    | some g ↦ some (
        element "Container" (prop "maxWidth" "lg" ∷ prop "className" "root" ∷ []) (
          element "Grid"
            (flag "container" true
              ∷ prop "direction" "row"
              ∷ prop "justify" "flex-start"
              ∷ prop "alignItems" "flex-start"
              ∷ prop "spacing" "3"
              ∷ [])
            (all (
              notification_item (get_notification stats)
                ∷ map get_stats_card (get_stats_cards is_none below_one to_fixed stats)
              ++ items stats g))
          ⊹ nil))
  ]
