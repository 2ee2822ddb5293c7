-- ===== src/Dashboard/Metrics/Cards.antt =====
-- app/src/components/Dashboard/metrics: what StatsCard and PerformanceChart render.
use mc_gatekeeper.Prelude.{ℕ, suc, String, true, ltb, Option, none, some, List, [], ◌∷◌, length}
use mc_gatekeeper.Js.Text.{show_int, decimal}
use mc_gatekeeper.Jsx.{Nodes, text, element, prop, flag, nil, ◌⊹◌, leaf}
use mc_gatekeeper.Dashboard.Metrics.{Row, Card}
use mc_gatekeeper.Dashboard.Metrics.Drawn.{Tree, all}
use Prim.Native.String.{◌++◌}

-- StatsCard
abbrev picture : Option String → Nodes ⊥
picture none = nil
picture (some name) = leaf name (prop "className" "icon" ∷ []) ⊹ nil

unfoldable pub stats_card : Card → Tree
stats_card c = element "Card" (prop "className" "root" ∷ []) (
    element "CardContent" [] (
      element "Grid" (flag "container" true ∷ prop "justify" "space-between" ∷ []) (
        element "Grid" (flag "item" true ∷ []) (
          element "Typography"
            (prop "className" "title"
              ∷ prop "color" "textSecondary"
              ∷ flag "gutterBottom" true
              ∷ prop "variant" "body2"
              ∷ [])
            (text c.title ⊹ nil)
          ⊹ element "Typography" (prop "variant" "h3" ∷ []) (text c.value ⊹ nil)
          ⊹ nil)
        ⊹ element "Grid" (flag "item" true ∷ []) (picture c.icon)
        ⊹ nil)
      ⊹ nil)
    ⊹ nil)

module _ {F : Type 0} (to_fixed1 : F → String) where
  -- PerformanceChart: the items of the list, the first index given.
  abbrev admin_item : ℕ → ℕ → Row F → Tree
  admin_item i n admin = element "ListItem" (flag "divider" (ltb (suc i) n) ∷ []) (
      element "ListItemAvatar" [] (
        leaf "img" (
          prop "alt" "Avatar"
          ∷ prop "className" "image"
          ∷ prop "src" ("https://ui-avatars.com/api/?name=" ++ admin.name)
          ∷ [])
        ⊹ nil)
      ⊹ leaf "ListItemText" (
          prop "primary" admin.name
          ∷ prop "secondary" ("Handled " ++ show_int admin.count ++ " applications in total ")
          ∷ [])
      ⊹ leaf "ListItemText" (
          prop "secondary" (
            "Average response time is "
            ++ to_fixed1 admin.average_response_time_in_minutes
            ++ " minutes")
          ∷ [])
      ⊹ nil)

  unfoldable pub admin_items : ℕ → ℕ → List (Row F) → List Tree
  admin_items i n [] = []
  admin_items i n (admin ∷ admins) = admin_item i n admin ∷ admin_items (suc i) n admins

  unfoldable pub performance_chart : List (Row F) → Tree
  unfolding admin_items decimal
  performance_chart admins = element "Card" (prop "className" "root" ∷ []) (
      leaf "CardHeader" (
        prop "subtitle" (decimal (length admins) ++ " in total")
        ∷ prop "title" "Server Admins Performance Overview"
        ∷ [])
      ⊹ leaf "Divider" []
      ⊹ element "CardContent" (prop "className" "content" ∷ [])
          (element "List" [] (all (admin_items 0 (length admins) admins)) ⊹ nil)
      ⊹ leaf "Divider" []
      ⊹ nil)
