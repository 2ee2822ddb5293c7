-- ===== src/Dashboard/View/Tests.antt =====
-- The shell at its start.
use mc_gatekeeper.Prelude.{String, ◌≡◌, ◌⊎◌, refl, Memᴰ}
use mc_gatekeeper.Jsx.{live}
use mc_gatekeeper.Dashboard.{Drawer, initial_drawer, landing, metrics, mounted, handle_switch_view}
use mc_gatekeeper.Dashboard.View.{render, switch_view, Run, stay, use_handler, Run-mounted_page}

abbrev same : String → String
same s = s

abbrev switched : Drawer
switched = record initial_drawer { view = "metrics" }

switching : Run same "2020" initial_drawer switched
unfolding handle_switch_view live render
switching =
    use_handler initial_drawer switched (switch_view "metrics")
      (Memᴰ.tail (Memᴰ.tail (Memᴰ.head refl))) (stay switched)

switched_shown : (mounted switched ≡ landing) ⊎ (mounted switched ≡ metrics)
switched_shown = Run-mounted_page same "2020" switched switching
