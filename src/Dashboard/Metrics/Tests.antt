-- ===== src/Dashboard/Metrics/Tests.antt =====
-- The metrics page at concrete statistics; a time is a whole number of minutes.
use mc_gatekeeper.Prelude.{ℕ, true, nat_eq, ltb, none, some, List, [], ◌∷◌, ◌≡◌, refl}
use mc_gatekeeper.Prelude.Int.{pos}
use mc_gatekeeper.Js.Text.{decimal}
use mc_gatekeeper.Dashboard.Metrics.{Stats, get_stats_cards, get_average_response_time, Card, icon}
use mc_gatekeeper.Jsx.{element, prop, flag, text, nil, ◌⊹◌}
use mc_gatekeeper.Dashboard.Metrics.{get_graphs, get_notification}
use mc_gatekeeper.Dashboard.Metrics.View.{render, my_snackbar_content_wrapper}
use mc_gatekeeper.Dashboard.Metrics.Stream.{
  mounted, Event, message, closed_connection, unmount, run, run-mounted,
}

abbrev stats : Stats ℕ
stats = record {
  pending = pos 3;
  approved = pos 5;
  denied = pos 1;
  banned = pos 1;
  deactivated = pos 0;
  average_response_time = 12;
  male_count = pos 2;
  female_count = pos 2;
  other_gender_count = pos 1;
  age_group1_count = pos 1;
  age_group2_count = pos 4;
  age_group3_count = pos 0;
  age_group4_count = pos 0;
  aggregate_stats = some (record { overtime_count = pos 2; admin_performance = none });
}

abbrev cards : List Card
cards =
    record { title = "Pending Applications"; value = "3"; icon = some "HourglassEmptyIcon" }
    ∷ record { title = "Whitelisted Players"; value = "5"; icon = some "CheckCircleIcon" }
    ∷ record { title = "Banned Players"; value = "1"; icon = some "NotInterestedIcon" }
    ∷ record { title = "Average Response Time"; value = "12 Minutes"; icon = some "AlarmOnIcon" }
    ∷ []

shown_cards : get_stats_cards (λ n. nat_eq n 0) (λ n. ltb n 1) decimal (some stats) ≡ cards
unfolding get_stats_cards get_average_response_time icon decimal
shown_cards = refl

abbrev events : List (Event ℕ)
events =
    message none
    ∷ message (some (some stats))
    ∷ closed_connection
    ∷ unmount
    ∷ message (some none)
    ∷ []

run-mounted_example :
    ((run events mounted).stats ≡ some stats) × ((run events mounted).closed ≡ true)
run-mounted_example = run-mounted events

-- Without statistics the page shows that there are none, and an empty notification.
drawn_empty :
    render {F = ℕ} (λ c. c) (λ n. nat_eq n 0) (λ n. ltb n 1) decimal decimal none
    ≡ some (
        element "Container" (prop "maxWidth" "lg" ∷ prop "className" "root" ∷ []) (
          element "Grid"
            (flag "container" true
              ∷ prop "direction" "row"
              ∷ prop "justify" "flex-start"
              ∷ prop "alignItems" "flex-start"
              ∷ prop "spacing" "3"
              ∷ [])
            (element "Grid"
                (flag "item" true ∷ prop "xs" "12" ∷ prop "sm" "12" ∷ prop "height" "100%" ∷ [])
                (my_snackbar_content_wrapper (record { variant = "success"; message = "" }) ⊹ nil)
              ⊹ element "p" [] (text "Insufficient data to generate graph" ⊹ nil)
              ⊹ nil)
          ⊹ nil))
unfolding render get_graphs get_notification get_stats_cards
drawn_empty = refl
