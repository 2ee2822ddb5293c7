-- ===== src/Cache/Tests.antt =====
-- The statistics at concrete requests; a time is a whole number of minutes.
use mc_gatekeeper.Prelude.{
  ℕ, zero, suc, ◌+◌, ◌-◌, ◌/◌, Bool, true, false, nat_eq, ◌==◌, if◌then◌else◌, none, some, [], ◌∷◌,
  ◌≡◌, ◌≢◌, ◌⊎◌, refl,
}
use mc_gatekeeper.Prelude.Int.{pos}
use mc_gatekeeper.Js.{undefined}
use mc_gatekeeper.Types.{Request}
use mc_gatekeeper.Dashboard.Landing.Transitions.{approving}
use mc_gatekeeper.Cache.{
  Hash, Attempt, runs, add64, minus_one, hmset, get_stats, write, changes, average, next,
  update_age_gender_stats, update_loop, update_real_time_stats,
}
use mc_gatekeeper.Cache.Sync.{sync, count_requests, count_request, sync_args}
use mc_gatekeeper.Cache.Counters.{
  Counter, pending, denied, approved, banned, deactivated, male, female, other, group1, group2,
  group3, group4, with_status, number, Counts,
}
use mc_gatekeeper.Cache.Recount.{sync-Counts}
use mc_gatekeeper.Cache.Retry.{
  changed, IsQuietAttempt, has_failed, update_real_time_stats-Counts, update_real_time_stats-made,
}
use mc_gatekeeper.Cache.Drift.{alone, alone-drift}

abbrev minutes : ℕ → ℕ → ℕ
minutes a b = (b - a) / 60

abbrev test_zero : ℕ → Bool
test_zero n = nat_eq n 0

-- A quotient by zero is not used.
abbrev over : ℕ → ℕ → ℕ
over a zero = 0
over a (suc b) = a / suc b

abbrev plus : ℕ → ℕ → ℕ
plus a b = a + b

abbrev whole : ℕ → ℕ
whole n = n

abbrev steve : Request
steve = record {
  id = "1";
  username = "steve";
  email = "s@x.org";
  age = pos 20;
  gender = "male";
  status = "Pending";
  timestamp = 0;
  processed_timestamp = 0;
  last_updated_timestamp = 0;
  admin = "";
  note = "";
  info = undefined;
  assignees = [];
}

abbrev alex : Request
alex = record steve {
  id = "2";
  username = "alex";
  gender = "female";
  status = "Approved";
  processed_timestamp = 600;
}

abbrev steve' : Request
steve' = record steve { status = "Approved"; processed_timestamp = 1200 }

abbrev empty : Hash ℕ
empty = record { ints = λ k. 0; floats = λ k. 0 }

running : Unit {0}
unfolding hmset get_stats write changes average next update_age_gender_stats update_loop
    update_real_time_stats sync count_requests count_request sync_args
running = tt

synced_ints :
    let h =
      sync 0 plus over test_zero whole
        (λ r. minutes r.timestamp r.processed_timestamp)
        (steve ∷ alex ∷ [])
        empty in
    (h.ints "pending" ≡ 1)
    × (h.ints "femaleCount" ≡ 1)
    × (h.ints "ageGroup2Count" ≡ 1)
    × (h.floats "averageResponseTimeInMinutes" ≡ 10)
unfolding running
synced_ints = (refl, refl, refl, refl)

sync-Counts_example :
    let q = sync 0 plus over test_zero whole (λ r. 0) (steve ∷ alex ∷ []) empty in
    ((c : Counter) → c ≢ deactivated → Counts q (steve ∷ alex ∷ []) c) × (q.ints "deactivated" ≡ 0)
sync-Counts_example = sync-Counts 0 plus over test_zero whole (λ r. 0) (steve ∷ alex ∷ []) empty

-- One pending request.
abbrev one_pending : Hash ℕ
one_pending = record empty { ints = λ k. if k == "pending" then 1 else 0 }

one_pending-Counts : (c : Counter) → Counts one_pending (steve ∷ []) c
one_pending-Counts pending = refl
one_pending-Counts denied = refl
one_pending-Counts approved = refl
one_pending-Counts banned = refl
one_pending-Counts deactivated = refl
one_pending-Counts male = refl
one_pending-Counts female = refl
one_pending-Counts other = refl
one_pending-Counts group1 = refl
one_pending-Counts group2 = refl
one_pending-Counts group3 = refl
one_pending-Counts group4 = refl

-- The first attempt is disturbed by a write of the aggregated statistics, the second is not.
abbrev aggregates : Hash ℕ → Hash ℕ
aggregates h = record h { floats = λ k. if k == "AggregateStats" then 7 else h.floats k }

abbrev attempts : ℕ → Attempt 0 plus over test_zero whole minutes
attempts (suc (suc (suc (suc k)))) = runs aggregates (some aggregates)
attempts k = runs aggregates none

attempts_quiet : (k : ℕ) → IsQuietAttempt 0 plus over test_zero whole minutes (attempts k)
unfolding get_stats
attempts_quiet zero = λ h. refl
attempts_quiet (suc zero) = λ h. refl
attempts_quiet (suc (suc zero)) = λ h. refl
attempts_quiet (suc (suc (suc zero))) = λ h. refl
attempts_quiet (suc (suc (suc (suc k)))) = (λ h. refl, λ h. refl)

attempts_work : (k : ℕ) → has_failed 0 plus over test_zero whole minutes (attempts k) ≡ false
attempts_work zero = refl
attempts_work (suc zero) = refl
attempts_work (suc (suc zero)) = refl
attempts_work (suc (suc (suc zero))) = refl
attempts_work (suc (suc (suc (suc k)))) = refl

abbrev updated : Hash ℕ × Bool
updated = update_real_time_stats 0 plus over test_zero whole minutes attempts steve' one_pending

updated_ints :
    (updated.0.ints "pending" ≡ 0)
    × (updated.0.ints "approved" ≡ 1)
    × (updated.0.ints "maleCount" ≡ 1)
unfolding running
updated_ints = (refl, refl, refl)

update_real_time_stats-Counts_example :
    ((updated.1 ≡ true) × ((c : Counter) → Counts updated.0 (steve' ∷ []) c))
    ⊎ ((updated.1 ≡ false) × ((c : Counter) → Counts updated.0 (steve ∷ []) c))
update_real_time_stats-Counts_example =
    update_real_time_stats-Counts 0 plus over test_zero whole minutes attempts (steve ∷ [])
      (steve' ∷ []) steve' one_pending attempts_quiet
      (changed [] [] steve steve' (approving, refl, refl)) one_pending-Counts

update_real_time_stats-made_example : updated.1 ≡ true
update_real_time_stats-made_example =
    update_real_time_stats-made 0 plus over test_zero whole minutes attempts steve' one_pending refl
      attempts_work

alone-drift_example :
    let q =
      alone 0 plus over test_zero whole minutes
        (with_status "Denied" steve)
        (alone 0 plus over test_zero whole minutes (with_status "Approved" steve) one_pending) in
    let rs = with_status "Denied" steve ∷ [] in
    (q.ints "pending" ≡ add64 (number pending rs) minus_one)
    × (q.ints "approved" ≡ add64 (number approved rs) 1)
alone-drift_example =
    alone-drift 0 plus over test_zero whole minutes [] [] steve one_pending refl refl
