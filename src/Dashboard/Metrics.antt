-- ===== src/Dashboard/Metrics.antt =====
-- app/src/components/Dashboard/metrics: the live statistics of metrics.js and the data that its
-- notification, cards and graphs show. The statistics have the fields that the page reads, `null`
-- is `none`. `F` is the type of a time in minutes, of which the page asks whether it is zero or
-- less than one, and what `toFixed` makes of it.
mod Stream
mod Drawn
mod Cards
mod View
mod Tests
use mc_gatekeeper.Prelude.{
  ℕ, zero, suc, String, Bool, true, false, Option, none, some, List, [], ◌∷◌, map, if◌then◌else◌,
  length, ◌==◌,
}
use mc_gatekeeper.Prelude.Int.{ℤ, pos, negsuc}
use mc_gatekeeper.Js.Text.{show_int, decimal}
use Prim.Native.String.{◌++◌}

pub record AdminPerformance (F : Type 0) : Type 0 where
  pub total_handled : ℤ
  pub average_response_time_in_minutes : F

pub record AggregateStats (F : Type 0) : Type 0 where
  pub overtime_count : ℤ
  pub admin_performance : Option (List (String × AdminPerformance F))

pub record Stats (F : Type 0) : Type 0 where
  pub pending : ℤ
  pub approved : ℤ
  pub denied : ℤ
  pub banned : ℤ
  pub deactivated : ℤ
  pub average_response_time : F
  pub male_count : ℤ
  pub female_count : ℤ
  pub other_gender_count : ℤ
  pub age_group1_count : ℤ
  pub age_group2_count : ℤ
  pub age_group3_count : ℤ
  pub age_group4_count : ℤ
  pub aggregate_stats : Option (AggregateStats F)

-- `count > 0` and `count === 0`
abbrev positive : ℤ → Bool
positive (pos (suc n)) = true
positive _ = false

abbrev pub is_zero : ℤ → Bool
is_zero (pos zero) = true
is_zero _ = false

abbrev pub nice_job : String
nice_job = "There is no pending request awaiting for more than 24 hours. Nice Job!"

abbrev pub overtime_msg : ℤ → String
overtime_msg count =
    "There are " ++ show_int count ++ " unhandled pending requests for more than 24 hours."

pub record Notification : Type 0 where
  pub variant : String
  pub message : String

module _ {F : Type 0} where
  -- `_getOvertimeWarningMsg`
  unfoldable pub get_overtime_warning_msg : Option (Stats F) → String
  get_overtime_warning_msg none = ""
  get_overtime_warning_msg (some s) = elim s.aggregate_stats [
    | none ↦ ""
    | some a ↦ if positive a.overtime_count then overtime_msg a.overtime_count else nice_job
  ]

  -- `_getSnackBarStyle`
  unfoldable pub get_snack_bar_style : Option (Stats F) → String
  get_snack_bar_style none = "success"
  get_snack_bar_style (some s) = elim s.aggregate_stats [
    | none ↦ "success"
    | some a ↦ if positive a.overtime_count then "warning" else "success"
  ]

  -- `getNotification`
  unfoldable pub get_notification : Option (Stats F) → Notification
  unfolding get_snack_bar_style get_overtime_warning_msg
  get_notification s = record {
    variant = get_snack_bar_style s;
    message = get_overtime_warning_msg s;
  }

-- A bar, a sector or a slice.
pub record Slice : Type 0 where
  pub name : String
  pub count : ℤ

abbrev pub slice : String → ℤ → Slice
slice name count = record { name = name; count = count }

-- A row of the table of `PerformanceChart`.
pub record Row (F : Type 0) : Type 0 where
  pub name : String
  pub count : ℤ
  pub average_response_time_in_minutes : F

abbrev pub create_row : {F : Type 0} → String × AdminPerformance F → Row F
create_row (admin, p) = record {
  name = admin;
  count = p.total_handled;
  average_response_time_in_minutes = p.average_response_time_in_minutes;
}

module _ {F : Type 0} where
  -- `_getTableRows`; `Object.keys(null)` throws.
  unfoldable pub get_table_rows : Option (AggregateStats F) → Option (List (Row F))
  get_table_rows none = some []
  get_table_rows (some a) = elim a.admin_performance [
    | none ↦ none
    | some performance ↦ some (map create_row performance)
  ]

  -- The data of `GenderGraph`, `StatusGraph` and `AgeGraph`.
  unfoldable pub gender_data : Stats F → List Slice
  gender_data s =
      slice "Male" s.male_count
      ∷ slice "Female" s.female_count
      ∷ slice "Others" s.other_gender_count
      ∷ []

  unfoldable pub status_data : Stats F → List Slice
  status_data s =
      slice "Pending" s.pending
      ∷ slice "Approved" s.approved
      ∷ slice "Denied" s.denied
      ∷ slice "Deactivated" s.deactivated
      ∷ slice "Banned" s.banned
      ∷ []

  unfoldable pub age_group_data : Stats F → List Slice
  age_group_data s =
      slice "0-15" s.age_group1_count
      ∷ slice "15-30" s.age_group2_count
      ∷ slice "30-45" s.age_group3_count
      ∷ slice "45+" s.age_group4_count
      ∷ []

-- What `getGraphs` returns.
pub data Graphs (F : Type 0) : Type 0 where
  insufficient : Graphs F
  graphs : List Slice → List Slice → List Slice → List (Row F) → Graphs F

module _ {F : Type 0} where
  -- `getGraphs`, none where it throws.
  unfoldable pub get_graphs : Option (Stats F) → Option (Graphs F)
  unfolding get_table_rows gender_data status_data age_group_data
  get_graphs none = some insufficient
  get_graphs (some s) =
      if is_zero s.approved then some insufficient else elim (get_table_rows s.aggregate_stats) [
        | none ↦ none
        | some rows ↦ some (graphs (gender_data s) (status_data s) (age_group_data s) rows)
      ]

pub record Card : Type 0 where
  pub title : String
  pub value : String
  pub icon : Option String

-- The icon of `StatsCard`.
unfoldable pub icon : String → Option String
icon kind =
    if kind == "Approved"
    then some "CheckCircleIcon"
    else if kind == "Banned"
    then some "NotInterestedIcon"
    else if kind == "Pending"
    then some "HourglassEmptyIcon"
    else if kind == "ResponseTime"
    then some "AlarmOnIcon"
    else none

abbrev card : String → String → String → Card
card title value kind = record { title = title; value = value; icon = icon kind }

module _ {F : Type 0} (is_none below_one : F → Bool) (to_fixed : F → String) where
  -- `_getAverageResponseTime`
  unfoldable pub get_average_response_time : F → String
  get_average_response_time value =
      if is_none value
      then "N/A"
      else if below_one value
      then "Less Than 1 Minute"
      else to_fixed value ++ " Minutes"

  -- `getStatsCards`
  unfoldable pub get_stats_cards : Option (Stats F) → List Card
  unfolding get_average_response_time icon
  get_stats_cards none = []
  get_stats_cards (some s) =
      card "Pending Applications" (show_int s.pending) "Pending"
      ∷ card "Whitelisted Players" (show_int s.approved) "Approved"
      ∷ card "Banned Players" (show_int s.banned) "Banned"
      ∷ card "Average Response Time" (get_average_response_time s.average_response_time)
          "ResponseTime"
      ∷ []
