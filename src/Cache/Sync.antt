-- ===== src/Cache/Sync.antt =====
-- `SyncStats`: the statistics counted anew from all requests.
use mc_gatekeeper.Prelude.{ℕ, Bool, ◌==◌, List, [], ◌∷◌, if◌then◌else◌}
use mc_gatekeeper.Types.{Request}
use mc_gatekeeper.Cache.{
  Hash, Arg, int, float, Stats, hmset, bump, is_other, in_group1, in_group2, in_group3, in_group4,
  add64,
}

abbrev pub none_yet : {F : Type 0} → F → Stats F
none_yet zero_f = record {
  pending = 0;
  denied = 0;
  approved = 0;
  banned = 0;
  deactivated = 0;
  total_response_time_in_minutes = zero_f;
  male_count = 0;
  female_count = 0;
  other_gender_count = 0;
  age_group1_count = 0;
  age_group2_count = 0;
  age_group3_count = 0;
  age_group4_count = 0;
}

module _ {F : Type 0} (zero_f : F) (plus over : F → F → F) (is_zero : F → Bool) (of_int : ℕ → F)
    (response_time : Request → F) where
  abbrev total_with : Request → Stats F → F
  total_with r s = plus s.total_response_time_in_minutes (response_time r)

  -- A round of the loop over the requests.
  unfoldable pub count_request : Request → Stats F → Stats F
  count_request r s =
      if r.status == "Approved"
      then record s {
        approved = add64 s.approved 1;
        male_count = bump (r.gender == "male") s.male_count 1;
        female_count = bump (r.gender == "female") s.female_count 1;
        other_gender_count = bump (is_other r.gender) s.other_gender_count 1;
        age_group1_count = bump (in_group1 r.age) s.age_group1_count 1;
        age_group2_count = bump (in_group2 r.age) s.age_group2_count 1;
        age_group3_count = bump (in_group3 r.age) s.age_group3_count 1;
        age_group4_count = bump (in_group4 r.age) s.age_group4_count 1;
        total_response_time_in_minutes = total_with r s;
      }
      else if r.status == "Denied"
      then record s { denied = add64 s.denied 1; total_response_time_in_minutes = total_with r s }
      else if r.status == "Pending"
      then record s { pending = add64 s.pending 1 }
      else if r.status == "Banned"
      then record s { banned = add64 s.banned 1; total_response_time_in_minutes = total_with r s }
      else if r.status == "Deactivated"
      then record s {
        deactivated = add64 s.deactivated 1;
        total_response_time_in_minutes = total_with r s;
      }
      else s

  unfoldable pub count_requests : List Request → Stats F → Stats F
  unfolding count_request
  count_requests [] s = s
  count_requests (r ∷ rs) s = count_requests rs (count_request r s)

  abbrev average_of : Stats F → F
  average_of s =
      if is_zero s.total_response_time_in_minutes
      then zero_f
      else over s.total_response_time_in_minutes
          (of_int (add64 (add64 (add64 s.approved s.denied) s.banned) s.deactivated))

  -- The arguments of its HMSET.
  unfoldable pub sync_args : Stats F → List (Arg F)
  sync_args s =
      int "pending" s.pending
      ∷ int "denied" s.denied
      ∷ int "approved" s.approved
      ∷ int "banned" s.banned
      ∷ int "Deactivated" s.deactivated
      ∷ float "averageResponseTimeInMinutes" (average_of s)
      ∷ float "totalResponseTimeInMinutes" s.total_response_time_in_minutes
      ∷ int "maleCount" s.male_count
      ∷ int "femaleCount" s.female_count
      ∷ int "otherGenderCount" s.other_gender_count
      ∷ int "ageGroup1Count" s.age_group1_count
      ∷ int "ageGroup2Count" s.age_group2_count
      ∷ int "ageGroup3Count" s.age_group3_count
      ∷ int "ageGroup4Count" s.age_group4_count
      ∷ []

  -- The transaction, for the requests that it has read.
  unfoldable pub sync : List Request → Hash F → Hash F
  unfolding count_requests sync_args hmset
  sync requests h = hmset (sync_args (count_requests requests (none_yet zero_f))) h
