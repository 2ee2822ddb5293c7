-- ===== src/Dashboard/Chart.antt =====
-- app/src/components/Dashboard/landing/Chart.js: the number of requests on each of the last five
-- days. `day i` is the date i days ago and `date_of` the date of a timestamp, as moment formats
-- them; `group_by` is lodash's: the own properties of the object that it returns.
mod View
mod Tests
use mc_gatekeeper.Prelude.{
  ℕ, zero, suc, ◌≤◌, ◌+◌, String, Bool, true, false, ◌==◌, Option, none, some, List, [], ◌∷◌, map,
  length, count_if, ◌≡◌, refl, ap, arith, inl, inr, Bool-cases, if◌then◌else◌,
}
use mc_gatekeeper.Dashboard.{WhitelistRequest}

pub record Point : Type 0 where
  pub time : String
  pub amount : ℕ

-- `_createData`
abbrev pub create_data : String → ℕ → Point
create_data time amount = record { time = time; amount = amount }

-- The point of a date: zero where the grouped requests have no such property.
unfoldable pub point : String → Option (List WhitelistRequest) → Point
point date none = create_data date 0
point date (some results) = create_data date (length results)

-- The elements with a key, none if there are none: what the documentation of `_.groupBy` says of
-- each key.
abbrev pub members :
    (WhitelistRequest → String) → List WhitelistRequest → String → List WhitelistRequest
members f [] k = []
members f (r ∷ rs) k = if f r == k then r ∷ members f rs k else members f rs k

abbrev pub group : List WhitelistRequest → Option (List WhitelistRequest)
group [] = none
group (r ∷ rs) = some (r ∷ rs)

members-count :
    (f : WhitelistRequest → String) (rs : List WhitelistRequest) (k : String)
    → length (members f rs k) ≡ count_if (λ r. f r == k) rs
members-count f [] k = refl
members-count f (r ∷ rs) k = elim (Bool-cases (f r == k)) [
  | inl e ↦ rw (e, members-count f rs k) (omega arith)
  | inr e ↦ rw (e, members-count f rs k) (omega arith)
]

point-length :
    (date : String) (rs : List WhitelistRequest)
    → point date (group rs) ≡ create_data date (length rs)
unfolding point
point-length date [] = refl
point-length date (r ∷ rs) = refl

module _ (day : ℕ → String) (date_of : String → String)
    (group_by : (WhitelistRequest → String)
      → List WhitelistRequest
      → String
      → Option (List WhitelistRequest)) where
  -- The loop that fills `daysAgo`, from `i` days ago on.
  unfoldable pub days_ago : ℕ → List String
  days_ago zero = day 0 ∷ []
  days_ago (suc i) = day (suc i) ∷ days_ago i

  -- The loop that fills `data`.
  unfoldable pub points : List WhitelistRequest → List String → List Point
  points requests [] = []
  points requests (date ∷ dates) =
      point date (group_by (λ r. date_of r.timestamp) requests date) ∷ points requests dates

  unfoldable pub chart : List WhitelistRequest → List Point
  unfolding days_ago points
  chart requests = points requests (days_ago 4)

  -- The number of requests of a day.
  abbrev pub on_day : List WhitelistRequest → ℕ → Point
  on_day requests i = create_data (day i) (count_if (λ r. date_of r.timestamp == day i) requests)

  module _
      (documented : (f : WhitelistRequest → String) (rs : List WhitelistRequest) (k : String)
        → group_by f rs k ≡ group (members f rs k)) where
    point-counts :
        (requests : List WhitelistRequest) (i : ℕ)
        → point (day i) (group_by (λ r. date_of r.timestamp) requests (day i)) ≡ on_day requests i
    point-counts requests i =
        rw
          (
            documented (λ r. date_of r.timestamp) requests (day i),
            point-length (day i) (members (λ r. date_of r.timestamp) requests (day i)),
            members-count (λ r. date_of r.timestamp) requests (day i),
          )
          refl

    -- With a `groupBy` as documented, the chart has the last five days, the oldest first, each with
    -- the number of requests whose date it is.
    pub chart-counts :
        (requests : List WhitelistRequest)
        → chart requests ≡ map (on_day requests) (4 ∷ 3 ∷ 2 ∷ 1 ∷ 0 ∷ [])
    unfolding chart
    chart-counts requests =
        rw
          (
            point-counts requests 4,
            point-counts requests 3,
            point-counts requests 2,
            point-counts requests 1,
            point-counts requests 0,
          )
          refl
