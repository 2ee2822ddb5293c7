-- ===== src/Dashboard/Chart/View.antt =====
-- app/src/components/Dashboard/landing: what Title.js and Chart.js render. The data and the margin
-- stand as child elements of their names.
use mc_gatekeeper.Prelude.{String, false, true, List, [], ◌∷◌}
use mc_gatekeeper.Js.Text.{decimal}
use mc_gatekeeper.Jsx.{Node, Nodes, text, element, prop, flag, nil, ◌⊹◌, leaf}
use mc_gatekeeper.Dashboard.Chart.{Point}

abbrev pub Tree : Type 0
Tree = Node ⊥

-- Title
unfoldable pub title : String → Tree
title content =
    element "Typography"
      (prop "component" "h2"
        ∷ prop "variant" "h6"
        ∷ prop "color" "primary"
        ∷ flag "gutterBottom" true
        ∷ [])
      (text content ⊹ nil)

unfoldable pub entries : List Point → Nodes ⊥
unfolding decimal
entries [] = nil
entries (p ∷ points) =
    leaf "entry" (prop "time" p.time ∷ prop "amount" (decimal p.amount) ∷ []) ⊹ entries points

abbrev margin : Tree
margin =
    leaf "margin" (prop "top" "16" ∷ prop "right" "16" ∷ prop "bottom" "0" ∷ prop "left" "24" ∷ [])

-- The elements of the fragment that `Chart` returns; `t` is `i18next.t`.
unfoldable pub line_chart : (String → String) → List Point → List Tree
unfolding title entries
line_chart t points =
    title (t "Dashboard.Chart.Title")
    ∷ element "ResponsiveContainer" [] (
        element "LineChart" [] (
          element "data" [] (entries points)
          ⊹ margin
          ⊹ leaf "XAxis" (prop "dataKey" "time" ∷ [])
          ⊹ element "YAxis" [] (
              element "Label"
                (prop "angle" "270"
                  ∷ prop "position" "left"
                  ∷ prop "style.textAnchor" "middle"
                  ∷ [])
                (text (t "Dashboard.Chart.Count") ⊹ nil)
              ⊹ nil)
          ⊹ leaf "Tooltip" []
          ⊹ leaf "Line" (
              prop "type" "monotone"
              ∷ prop "dataKey" "amount"
              ∷ prop "stroke" "#556CD6"
              ∷ flag "dot" false
              ∷ [])
          ⊹ nil)
        ⊹ nil)
    ∷ []
