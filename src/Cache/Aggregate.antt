-- ===== src/Cache/Aggregate.antt =====
-- server/cache/cache.go: `UpdateAggregateStats`, the statistics that are made anew from all requests.
-- `is_day a b` is whether `b.Sub(a).Hours()` is at least 24; the map of performances is a list with
-- one entry for a name, and `marshal` is `json.Marshal` of what is exported.
mod Tally
mod Tests
use mc_gatekeeper.Prelude.{
  ℕ, String, Bool, ◌||◌, ◌==◌, Option, none, some, List, [], ◌∷◌, if◌then◌else◌,
}
use mc_gatekeeper.Types.{Request}
use mc_gatekeeper.Cache.{add64}

pub record Performance (F : Type 0) : Type 0 where
  pub total_handled : ℕ
  pub average_response_time_in_minutes : F
  pub total_response_time_in_minutes : F

abbrev pub Performances : Type 0 → Type 0
Performances F = List (String × Performance F)

pub record AggregateStats (F : Type 0) : Type 0 where
  pub overtime_count : ℕ
  pub admin_performance : Performances F

-- The filters of the two queries.
abbrev pub is_pending : Request → Bool
is_pending r = r.status == "Pending"

abbrev pub is_fulfilled : Request → Bool
is_fulfilled r =
    r.status == "Denied"
    || r.status == "Approved"
    || r.status == "Banned"
    || r.status == "Deactivated"

-- A read of a map.
module _ {A : Type 0} where
  unfoldable pub performance_of : String → List (String × A) → Option A
  performance_of admin [] = none
  performance_of admin ((name, p) ∷ rest) =
      let later = performance_of admin rest in if name == admin then some p else later

-- A write of the map.
module _ {F : Type 0} where
  unfoldable pub set_performance : String → Performance F → Performances F → Performances F
  set_performance admin p [] = (admin, p) ∷ []
  set_performance admin p ((name, q) ∷ rest) =
      let later = set_performance admin p rest in
      if name == admin then (name, p) ∷ rest else (name, q) ∷ later

-- What the JSON has of the statistics: `totalResponseTimeInMinutes` is not exported, and left out.
pub record JsonPerformance (F : Type 0) : Type 0 where
  pub total_handled : ℕ
  pub average_response_time_in_minutes : F

pub record JsonStats (F : Type 0) : Type 0 where
  pub overtime_count : ℕ
  pub admin_performance : List (String × JsonPerformance F)

module _ {F : Type 0} where
  abbrev pub exported : Performance F → JsonPerformance F
  exported p = record {
    total_handled = p.total_handled;
    average_response_time_in_minutes = p.average_response_time_in_minutes;
  }

  unfoldable pub all_exported : Performances F → List (String × JsonPerformance F)
  all_exported [] = []
  all_exported ((name, p) ∷ rest) = (name, exported p) ∷ all_exported rest

  unfoldable pub json_stats : AggregateStats F → JsonStats F
  unfolding all_exported
  json_stats s = record {
    overtime_count = s.overtime_count;
    admin_performance = all_exported s.admin_performance;
  }

module _ {F : Type 0} (plus over : F → F → F) (of_int : ℕ → F) (minutes : ℕ → ℕ → F)
    (is_day : ℕ → ℕ → Bool) where
  -- The loop over the pending requests.
  unfoldable pub count_overtime : ℕ → List Request → ℕ → ℕ
  count_overtime current_time [] overtime_count = overtime_count
  count_overtime current_time (r ∷ rs) overtime_count =
      count_overtime current_time rs
        (if is_day r.timestamp current_time then add64 overtime_count 1 else overtime_count)

  abbrev pub first_handled : F → Performance F
  first_handled processing_time = record {
    total_handled = 1;
    average_response_time_in_minutes = processing_time;
    total_response_time_in_minutes = processing_time;
  }

  abbrev pub next_handled : F → Performance F → Performance F
  next_handled processing_time p =
      let total = plus p.total_response_time_in_minutes processing_time in
      record {
        total_handled = add64 p.total_handled 1;
        average_response_time_in_minutes = over total (plus (of_int p.total_handled) (of_int 1));
        total_response_time_in_minutes = total;
      }

  -- A round of the loop over the fulfilled requests.
  unfoldable pub handle_fulfilled : Request → Performances F → Performances F
  unfolding performance_of set_performance
  handle_fulfilled r ps =
      let processing_time = minutes r.timestamp r.processed_timestamp in
      elim (performance_of r.admin ps) [
        | some p ↦ set_performance r.admin (next_handled processing_time p) ps
        | none ↦ set_performance r.admin (first_handled processing_time) ps
      ]

  unfoldable pub handle_all : List Request → Performances F → Performances F
  unfolding handle_fulfilled
  handle_all [] ps = ps
  handle_all (r ∷ rs) ps = handle_all rs (handle_fulfilled r ps)

  unfoldable pub aggregate : ℕ → List Request → List Request → AggregateStats F
  unfolding count_overtime handle_all
  aggregate current_time pending_requests fulfilled_requests = record {
    overtime_count = count_overtime current_time pending_requests 0;
    admin_performance = handle_all fulfilled_requests [];
  }

  -- `UpdateAggregateStats`: the text that is stored and broadcast, or none where it returns an error.
  unfoldable pub update_aggregate_stats :
      ℕ
      → ((Request → Bool) → Option (List Request))
      → (JsonStats F → Option String)
      → (can_write : Bool) → Option String
  unfolding aggregate json_stats
  update_aggregate_stats current_time get_requests marshal can_write =
      elim (get_requests is_pending) [
        | none ↦ none
        | some pending_requests ↦ elim (get_requests is_fulfilled) [
          | none ↦ none
          | some fulfilled_requests ↦
              let json =
                marshal (json_stats (aggregate current_time pending_requests fulfilled_requests)) in
              if can_write then json else none
        ]
      ]
