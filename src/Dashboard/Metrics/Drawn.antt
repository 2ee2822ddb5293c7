-- ===== src/Dashboard/Metrics/Drawn.antt =====
-- app/src/components/Dashboard/metrics: what StatusGraph, AgeGraph and GenderGraph render. A property that is an object or a list stands as a child element of its name; `{...rest}`
-- hands a component's properties on to the card and is left out. `palette` is the theme's.
use mc_gatekeeper.Prelude.{String, true, false, List, [], ◌∷◌, map}
use mc_gatekeeper.Prelude.Int.{ℤ}
use mc_gatekeeper.Js.Text.{show_int}
use mc_gatekeeper.Jsx.{Node, Nodes, Attr, text, element, prop, flag, nil, ◌⊹◌, leaf}
use mc_gatekeeper.Dashboard.Metrics.{Stats, Slice}

abbrev pub Tree : Type 0
Tree = Node ⊥

abbrev pub all : List Tree → Nodes ⊥
all [] = nil
all (x ∷ xs) = x ⊹ all xs

abbrev texts : List String → Nodes ⊥
texts [] = nil
texts (s ∷ ss) = text s ⊹ texts ss

-- A list of texts or numbers as a property.
abbrev pub values : String → List String → Tree
values name vs = element name [] (texts vs)

-- The card of a graph.
abbrev graph_card : List (Attr ⊥) → Nodes ⊥ → Tree
graph_card title content =
    element "Card" (prop "className" "root" ∷ [])
      (leaf "CardHeader" title ⊹ leaf "Divider" [] ⊹ element "CardContent" [] content ⊹ nil)

abbrev slice_names : List Slice → List String
slice_names slices = map (λ (s : Slice). s.name) slices

abbrev slice_counts : List Slice → List String
slice_counts slices = map (λ (s : Slice). show_int s.count) slices

-- StatusGraph
abbrev bar : Slice → Tree
bar s = leaf "entry" (prop "name" s.name ∷ prop "count" (show_int s.count) ∷ [])

unfoldable pub status_graph : List Slice → Tree
status_graph slices = graph_card (prop "title" "Status Distribution Graph" ∷ []) (
    element "ResponsiveContainer" (prop "width" "100%" ∷ prop "height" "300" ∷ []) (
      element "BarChart" [] (
        element "data" [] (all (map bar slices))
        ⊹ leaf "CartesianGrid" (prop "strokeDasharray" "3 3" ∷ [])
        ⊹ leaf "XAxis" (prop "dataKey" "name" ∷ [])
        ⊹ leaf "YAxis" []
        ⊹ leaf "Tooltip" []
        ⊹ leaf "Legend" []
        ⊹ leaf "Bar" (prop "dataKey" "count" ∷ prop "fill" "#8884d8" ∷ [])
        ⊹ nil)
      ⊹ nil)
    ⊹ nil)

-- AgeGraph: the fills of the four groups
abbrev sectors : List Slice → List String → List Tree
sectors [] _ = []
sectors _ [] = []
sectors (s ∷ slices) (fill ∷ fills) =
    leaf "entry" (prop "name" s.name ∷ prop "value" (show_int s.count) ∷ prop "fill" fill ∷ [])
    ∷ sectors slices fills

abbrev age_fills : List String
age_fills = "#8884d8" ∷ "#83a6ed" ∷ "#8dd1e1" ∷ "#82ca9d" ∷ []

unfoldable pub age_graph : List Slice → Tree
age_graph slices = graph_card (prop "title" "Age Distribution of Players" ∷ []) (
    element "ResponsiveContainer" (prop "width" "100%" ∷ prop "height" "300" ∷ []) (
      element "RadialBarChart"
        (prop "innerRadius" "10%"
          ∷ prop "outerRadius" "80%"
          ∷ prop "startAngle" "180"
          ∷ prop "endAngle" "0"
          ∷ [])
        (element "data" [] (all (sectors slices age_fills))
          ⊹ leaf "RadialBar" (
              prop "minAngle" "15"
              ∷ flag "background" true
              ∷ flag "clockWise" true
              ∷ prop "dataKey" "value"
              ∷ [])
          ⊹ leaf "Legend" (
              prop "iconSize" "10"
              ∷ prop "layout" "vertical"
              ∷ prop "verticalAlign" "top"
              ∷ prop "align" "right"
              ∷ [])
          ⊹ leaf "Tooltip" []
          ⊹ nil)
      ⊹ nil)
    ⊹ nil)

-- GenderGraph: a sector of the ring, and what the legend below it shows.
pub record Device : Type 0 where
  pub title : String
  pub value : ℤ
  pub icon : String
  pub color : String

module _ (palette : String → String) where
  unfoldable pub background_colors : List String
  background_colors = palette "primary.main" ∷ palette "error.main" ∷ palette "warning.main" ∷ []

  unfoldable pub devices : {F : Type 0} → Stats F → List Device
  devices s =
      record {
        title = "Male";
        value = s.male_count;
        icon = "AccessibilityIcon";
        color = palette "primary.main";
      }
      ∷ record {
        title = "Female";
        value = s.female_count;
        icon = "PregnantWomanIcon";
        color = palette "error.main";
      }
      ∷ record {
        title = "Others";
        value = s.other_gender_count;
        icon = "HelpIcon";
        color = palette "warning.main";
      }
      ∷ []

  abbrev device_node : Device → Tree
  device_node d = element "div" (prop "className" "device" ∷ prop "key" d.title ∷ []) (
      element "span" (prop "className" "deviceIcon" ∷ []) (leaf d.icon [] ⊹ nil)
      ⊹ element "Typography" (prop "variant" "body1" ∷ []) (text d.title ⊹ nil)
      ⊹ element "Typography" (prop "style.color" d.color ∷ prop "variant" "h3" ∷ [])
          (text (show_int d.value) ⊹ nil)
      ⊹ nil)

  -- `data`
  abbrev doughnut_data : List Slice → Tree
  doughnut_data slices = element "data" [] (
      element "datasets" [] (
        element "dataset"
          (prop "borderWidth" "8"
            ∷ prop "borderColor" (palette "white")
            ∷ prop "hoverBorderColor" (palette "white")
            ∷ [])
          (values "data" (slice_counts slices) ⊹ values "backgroundColor" background_colors ⊹ nil)
        ⊹ nil)
      ⊹ values "labels" (slice_names slices)
      ⊹ nil)

  -- `options`
  abbrev doughnut_options : Tree
  doughnut_options =
      element "options"
        (flag "legend.display" false
          ∷ flag "responsive" true
          ∷ flag "maintainAspectRatio" false
          ∷ flag "animation" true
          ∷ prop "cutoutPercentage" "80"
          ∷ prop "layout.padding" "0"
          ∷ [])
        (leaf "tooltips" (
            flag "enabled" true
            ∷ prop "mode" "index"
            ∷ flag "intersect" false
            ∷ prop "borderWidth" "1"
            ∷ prop "borderColor" (palette "divider")
            ∷ prop "backgroundColor" (palette "white")
            ∷ prop "titleFontColor" (palette "text.primary")
            ∷ prop "bodyFontColor" (palette "text.secondary")
            ∷ prop "footerFontColor" (palette "text.secondary")
            ∷ [])
          ⊹ nil)

  unfoldable pub gender_graph : List Slice → List Device → Tree
  unfolding background_colors
  gender_graph slices shown = graph_card (prop "title" "Gender Distribution of Players" ∷ []) (
      element "div" [] (element "Doughnut" [] (doughnut_data slices ⊹ doughnut_options ⊹ nil) ⊹ nil)
      ⊹ element "div" (prop "className" "stats" ∷ []) (all (map device_node shown))
      ⊹ nil)
