-- ===== src/Cache/Aggregate/Tests.antt =====
-- The aggregated statistics of a few requests; a time is a whole number of minutes.
use mc_gatekeeper.Prelude.{
  ℕ, zero, suc, ◌+◌, ◌-◌, ◌/◌, String, Bool, true, not, ltb, Option, some, List, [], ◌∷◌, ◌≡◌, refl,
  arith, if◌then◌else◌,
}
use mc_gatekeeper.Prelude.Int.{pos}
use mc_gatekeeper.Js.{undefined}
use mc_gatekeeper.Types.{Request}
use mc_gatekeeper.Cache.Aggregate.{
  JsonStats, json_stats, performance_of, aggregate, update_aggregate_stats,
}
use mc_gatekeeper.Cache.Aggregate.Tally.{IsFloat, update_aggregate_stats-tally}

abbrev minutes : ℕ → ℕ → ℕ
minutes a b = (b - a) / 60

abbrev over : ℕ → ℕ → ℕ
over a zero = 0
over a (suc b) = a / suc b

abbrev plus : ℕ → ℕ → ℕ
plus a b = a + b

abbrev whole : ℕ → ℕ
whole n = n

abbrev is_day : ℕ → ℕ → Bool
is_day a b = not (ltb (b - a) 86400)

whole-IsFloat : IsFloat plus over whole minutes is_day
whole-IsFloat = record { next_int = λ n small. omega arith; over_one = λ x. omega arith }

abbrev request : String → String → ℕ → ℕ → Request
request status admin timestamp processed = record {
  id = "1";
  username = "steve";
  email = "s@x.org";
  age = pos 20;
  gender = "male";
  status = status;
  timestamp = timestamp;
  processed_timestamp = processed;
  last_updated_timestamp = 0;
  admin = admin;
  note = "";
  info = undefined;
  assignees = [];
}

abbrev waiting : List Request
waiting = request "Pending" "" 0 0 ∷ request "Pending" "" 90000 0 ∷ []

abbrev handled : List Request
handled =
    request "Approved" "a@x.org" 0 600
    ∷ request "Denied" "b@x.org" 0 60
    ∷ request "Banned" "a@x.org" 60 1860
    ∷ []

-- The filters are told apart by a request that is denied.
abbrev find : (Request → Bool) → Option (List Request)
find p = if p (request "Denied" "" 0 0) then some handled else some waiting

abbrev marshal : JsonStats ℕ → Option String
marshal s = some "json"

update_aggregate_stats-tally_example :
    let s = json_stats (aggregate plus over whole minutes is_day 100000 waiting handled) in
    (update_aggregate_stats plus over whole minutes is_day 100000 find marshal true ≡ marshal s)
    × (s.overtime_count ≡ 1)
    × (performance_of "a@x.org" s.admin_performance
        ≡ some (record { total_handled = 2; average_response_time_in_minutes = 20 }))
update_aggregate_stats-tally_example =
    update_aggregate_stats-tally plus over whole minutes is_day whole-IsFloat 100000 find marshal
      "a@x.org" waiting handled refl refl (omega arith) (omega arith)
