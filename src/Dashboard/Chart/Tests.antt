-- ===== src/Dashboard/Chart/Tests.antt =====
-- The chart at a concrete list of requests.
use mc_gatekeeper.Prelude.{
  ℕ, zero, suc, String, ◌==◌, Option, none, some, List, [], ◌∷◌, ◌≡◌, refl, inl, inr, Bool-cases,
  if◌then◌else◌,
}
use mc_gatekeeper.Prelude.Int.{pos}
use mc_gatekeeper.Js.{undefined}
use mc_gatekeeper.Dashboard.{WhitelistRequest}
use mc_gatekeeper.Dashboard.Chart.{create_data, members, group, chart, chart-counts}

-- A grouping that prepends each element to those of its key.
abbrev add : WhitelistRequest → Option (List WhitelistRequest) → Option (List WhitelistRequest)
add r none = some (r ∷ [])
add r (some rs) = some (r ∷ rs)

abbrev group_by :
    (WhitelistRequest → String) → List WhitelistRequest → String → Option (List WhitelistRequest)
group_by f [] k = none
group_by f (r ∷ rs) k = let rest = group_by f rs k in if f r == k then add r rest else rest

add-group : (r : WhitelistRequest) (rs : List WhitelistRequest) → add r (group rs) ≡ group (r ∷ rs)
add-group r [] = refl
add-group r (x ∷ xs) = refl

group_by-members :
    (f : WhitelistRequest → String) (rs : List WhitelistRequest) (k : String)
    → group_by f rs k ≡ group (members f rs k)
group_by-members f [] k = refl
group_by-members f (r ∷ rs) k = elim (Bool-cases (f r == k)) [
  | inl e ↦ rw (e, group_by-members f rs k, add-group r (members f rs k)) refl
  | inr e ↦ rw (e, group_by-members f rs k) refl
]

abbrev request : String → WhitelistRequest
request day = record {
  id = "1";
  username = "steve";
  email = "s@x.org";
  age = pos 20;
  gender = "male";
  status = "Pending";
  timestamp = day;
  processed_timestamp = "";
  last_updated_timestamp = "";
  admin = "";
  note = "";
  info = undefined;
  assignees = [];
}

abbrev week : ℕ → String
week zero = "05/05"
week (suc zero) = "05/04"
week (suc (suc zero)) = "05/03"
week (suc (suc (suc zero))) = "05/02"
week _ = "05/01"

abbrev some_requests : List WhitelistRequest
some_requests = request "05/05" ∷ request "05/03" ∷ request "04/30" ∷ request "05/05" ∷ []

chart-counts_example :
    chart week (λ time. time) group_by some_requests
    ≡ create_data "05/01" 0
      ∷ create_data "05/02" 0
      ∷ create_data "05/03" 1
      ∷ create_data "05/04" 0
      ∷ create_data "05/05" 2
      ∷ []
chart-counts_example = chart-counts week (λ time. time) group_by group_by-members some_requests
