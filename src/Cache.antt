-- ===== src/Cache.antt =====
-- server/cache/cache.go: the statistics that the server keeps in a hash of redis. An int64 is its
-- bit pattern, a number below 2 ^ 64. `F` is float64; `plus` and `over` are its sum and quotient,
-- `is_zero` its test against 0 and `of_int` its conversion of an int64; `minutes a b` is
-- `b.Sub(a).Minutes()`.
pub mod Sync
pub mod Counters
pub mod Aggregate
mod Recount
mod Refine
mod Retry
mod Drift
mod Tests
use mc_gatekeeper.Prelude.{
  ℕ, zero, suc, ◌+◌, ◌-◌, ◌%◌, String, Bool, true, false, not, ◌&&◌, ◌||◌, ◌==◌, ltb, Option, none,
  some, List, [], ◌∷◌, ◌++◌, if◌then◌else◌,
}
use mc_gatekeeper.Prelude.Int.{ℤ, pos, negsuc}
use mc_gatekeeper.Types.{Request}
use Prim.Native.Nat.{◌^◌}

abbrev pub add64 : ℕ → ℕ → ℕ
add64 a b = (a + b) % 2 ^ 64

abbrev pub minus_one : ℕ
minus_one = 2 ^ 64 - 1

-- What HGETALL gives, read as a field of one type or the other; a missing field reads as zero.
pub record Hash (F : Type 0) : Type 0 where
  pub ints : String → ℕ
  pub floats : String → F

-- An argument of HMSET, with its field.
pub data Arg (F : Type 0) : Type 0 where
  int : String → ℕ → Arg F
  float : String → F → Arg F

pub record Stats (F : Type 0) : Type 0 where
  pub pending : ℕ
  pub denied : ℕ
  pub approved : ℕ
  pub banned : ℕ
  pub deactivated : ℕ
  pub total_response_time_in_minutes : F
  pub male_count : ℕ
  pub female_count : ℕ
  pub other_gender_count : ℕ
  pub age_group1_count : ℕ
  pub age_group2_count : ℕ
  pub age_group3_count : ℕ
  pub age_group4_count : ℕ

-- `0 <= age && age < step`, `step <= age && age < step*2`, `step*2 <= age && age < step*3`
abbrev pub between : ℕ → ℕ → ℤ → Bool
between low high (pos n) = not (ltb n low) && ltb n high
between low high (negsuc n) = false

abbrev pub age_group_step : ℕ
age_group_step = 15

abbrev pub in_group1 : ℤ → Bool
in_group1 age = between 0 age_group_step age

abbrev pub in_group2 : ℤ → Bool
in_group2 age = not (in_group1 age) && between 15 30 age

abbrev pub in_group3 : ℤ → Bool
in_group3 age = not (in_group1 age) && not (in_group2 age) && between 30 45 age

abbrev pub in_group4 : ℤ → Bool
in_group4 age = not (in_group1 age) && not (in_group2 age) && not (in_group3 age)

abbrev pub is_other : String → Bool
is_other gender = not (gender == "male") && not (gender == "female")

-- A counter that is changed where the test of its case holds.
abbrev pub bump : Bool → ℕ → ℕ → ℕ
bump test count delta = if test then add64 count delta else count

module _ {F : Type 0} where
  -- HMSET
  abbrev pub set : Arg F → Hash F → Hash F
  set (int field v) h = record h { ints = λ k. if field == k then v else h.ints k }
  set (float field v) h = record h { floats = λ k. if field == k then v else h.floats k }

  unfoldable pub hmset : List (Arg F) → Hash F → Hash F
  hmset [] h = h
  hmset (a ∷ args) h = hmset args (set a h)

  -- `getStats`, but for the aggregated statistics.
  unfoldable pub get_stats : Hash F → Stats F
  get_stats h = record {
    pending = h.ints "pending";
    denied = h.ints "denied";
    approved = h.ints "approved";
    banned = h.ints "banned";
    deactivated = h.ints "deactivated";
    total_response_time_in_minutes = h.floats "totalResponseTimeInMinutes";
    male_count = h.ints "maleCount";
    female_count = h.ints "femaleCount";
    other_gender_count = h.ints "otherGenderCount";
    age_group1_count = h.ints "ageGroup1Count";
    age_group2_count = h.ints "ageGroup2Count";
    age_group3_count = h.ints "ageGroup3Count";
    age_group4_count = h.ints "ageGroup4Count";
  }

  -- `updateAgeGenderStats`
  unfoldable pub update_age_gender_stats : Request → Stats F → ℕ → List (Arg F)
  update_age_gender_stats r s delta =
      int "maleCount" (bump (r.gender == "male") s.male_count delta)
      ∷ int "femaleCount" (bump (r.gender == "female") s.female_count delta)
      ∷ int "otherGenderCount" (bump (is_other r.gender) s.other_gender_count delta)
      ∷ int "ageGroup1Count" (bump (in_group1 r.age) s.age_group1_count delta)
      ∷ int "ageGroup2Count" (bump (in_group2 r.age) s.age_group2_count delta)
      ∷ int "ageGroup3Count" (bump (in_group3 r.age) s.age_group3_count delta)
      ∷ int "ageGroup4Count" (bump (in_group4 r.age) s.age_group4_count delta)
      ∷ []

module _ {F : Type 0} (zero_f : F) (plus over : F → F → F) (is_zero : F → Bool) (of_int : ℕ → F)
    (minutes : ℕ → ℕ → F) where
  abbrev pub response_time : Request → F
  response_time r = minutes r.timestamp r.processed_timestamp

  -- The switch of `UpdateRealTimeStats`: the new counters and the new total.
  unfoldable pub next : Request → Stats F → Stats F
  next r s =
      if r.status == "Approved"
      then record s {
        approved = add64 s.approved 1;
        pending = add64 s.pending minus_one;
        total_response_time_in_minutes = plus s.total_response_time_in_minutes (response_time r);
      }
      else if r.status == "Denied"
      then record s {
        denied = add64 s.denied 1;
        pending = add64 s.pending minus_one;
        total_response_time_in_minutes = plus s.total_response_time_in_minutes (response_time r);
      }
      else if r.status == "Pending"
      then record s { pending = add64 s.pending 1 }
      else if r.status == "Banned"
      then record s { banned = add64 s.banned 1; approved = add64 s.approved minus_one }
      else if r.status == "Deactivated"
      then record s { approved = add64 s.approved minus_one; deactivated = add64 s.deactivated 1 }
      else s

  -- The arguments that the switch appends.
  unfoldable pub changes : Request → Stats F → List (Arg F)
  unfolding next update_age_gender_stats
  changes r s =
      let n = next r s in
      let total = float "totalResponseTimeInMinutes" n.total_response_time_in_minutes in
      if r.status == "Approved"
      then update_age_gender_stats r s 1
        ++ int "pending" n.pending ∷ int "approved" n.approved ∷ total ∷ []
      else if r.status == "Denied"
      then int "pending" n.pending ∷ int "denied" n.denied ∷ total ∷ []
      else if r.status == "Pending"
      then int "pending" n.pending ∷ []
      else if r.status == "Banned"
      then int "approved" n.approved ∷ int "banned" n.banned ∷ update_age_gender_stats r s minus_one
      else if r.status == "Deactivated"
      then int "approved" n.approved
        ∷ int "deactivated" n.deactivated
        ∷ update_age_gender_stats r s minus_one
      else []

  -- The average, where any time was spent.
  unfoldable pub average : Request → Stats F → List (Arg F)
  unfolding next
  average r s =
      let n = next r s in
      if is_zero n.total_response_time_in_minutes
      then []
      else float "averageResponseTimeInMinutes" (
          over n.total_response_time_in_minutes
            (of_int (add64 (add64 (add64 n.approved n.denied) n.banned) n.deactivated)))
        ∷ []

  -- The transaction of an attempt, for the statistics that it has read.
  unfoldable pub write : Request → Stats F → Hash F → Hash F
  unfolding hmset changes average
  write r s h = hmset (changes r s ++ average r s) h

  abbrev pub lacks_fields : List (Arg F) → Bool
  lacks_fields [] = true
  lacks_fields (a ∷ args) = false

  -- What other clients do to the hash while an attempt runs: after the statistics are read and
  -- before WATCH, and between WATCH and EXEC; or a command fails.
  pub data Attempt : Type 0 where
    runs : (Hash F → Hash F) → Option (Hash F → Hash F) → Attempt
    fails : (Hash F → Hash F) → Attempt

  -- `UpdateRealTimeStats`: the hash afterwards, and whether the update was made. EXEC fails for an
  -- HMSET without a field.
  unfoldable pub update_loop : ℕ → (ℕ → Attempt) → Request → Hash F → Hash F × Bool
  unfolding get_stats write changes average
  update_loop zero attempt r h = (h, false)
  update_loop (suc n) attempt r h = elim (attempt n) [
    | fails others ↦ (others h, false)
    | runs before none ↦
        if lacks_fields (changes r (get_stats h) ++ average r (get_stats h))
        then (before h, false)
        else (write r (get_stats h) (before h), true)
    | runs before (some during) ↦ update_loop n attempt r (during (before h))
  ]

  abbrev pub max_retry : ℕ
  max_retry = 5

  unfoldable pub update_real_time_stats : (ℕ → Attempt) → Request → Hash F → Hash F × Bool
  unfolding update_loop
  update_real_time_stats attempt r h = update_loop max_retry attempt r h
