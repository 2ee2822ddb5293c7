-- ===== src/Cache/Counters.antt =====
-- What the counters of the statistics are meant to count.
use mc_gatekeeper.Prelude.{
  ℕ, ◌%◌, String, Bool, true, false, ◌&&◌, ◌==◌, List, count_if, ◌≡◌, refl, sym, subst, inl, inr,
  Bool-cases, eq_iff,
}
use mc_gatekeeper.Types.{Request}
use mc_gatekeeper.Cache.{
  Hash, Stats, bump, get_stats, in_group1, in_group2, in_group3, in_group4, is_other,
}
use Prim.Native.Nat.{◌^◌}

-- A counter of a status, or one of the players that are approved.
pub data Counter : Type 0 where
  pending denied approved banned deactivated : Counter
  male female other group1 group2 group3 group4 : Counter

-- Its field in the hash.
abbrev pub field : Counter → String
field pending = "pending"
field denied = "denied"
field approved = "approved"
field banned = "banned"
field deactivated = "deactivated"
field male = "maleCount"
field female = "femaleCount"
field other = "otherGenderCount"
field group1 = "ageGroup1Count"
field group2 = "ageGroup2Count"
field group3 = "ageGroup3Count"
field group4 = "ageGroup4Count"

abbrev pub player : Bool → Request → Bool
player test r = r.status == "Approved" && test

-- The requests that it counts.
abbrev pub belongs : Counter → Request → Bool
belongs pending r = r.status == "Pending"
belongs denied r = r.status == "Denied"
belongs approved r = r.status == "Approved"
belongs banned r = r.status == "Banned"
belongs deactivated r = r.status == "Deactivated"
belongs male r = player (r.gender == "male") r
belongs female r = player (r.gender == "female") r
belongs other r = player (is_other r.gender) r
belongs group1 r = player (in_group1 r.age) r
belongs group2 r = player (in_group2 r.age) r
belongs group3 r = player (in_group3 r.age) r
belongs group4 r = player (in_group4 r.age) r

abbrev pub number : Counter → List Request → ℕ
number c rs = count_if (belongs c) rs % 2 ^ 64

-- The hash has the right number in a counter.
abbrev pub Counts : {F : Type 0} → Hash F → List Request → Counter → Type 0
Counts h rs c = h.ints (field c) ≡ number c rs

-- Its field of the statistics.
abbrev pub read : {F : Type 0} → Counter → Stats F → ℕ
read pending s = s.pending
read denied s = s.denied
read approved s = s.approved
read banned s = s.banned
read deactivated s = s.deactivated
read male s = s.male_count
read female s = s.female_count
read other s = s.other_gender_count
read group1 s = s.age_group1_count
read group2 s = s.age_group2_count
read group3 s = s.age_group3_count
read group4 s = s.age_group4_count

-- Every counter that the request belongs to is changed by `delta`.
abbrev pub bumped_by : {F : Type 0} → ℕ → Request → F → Stats F → Stats F
bumped_by delta r total s = record {
  pending = bump (belongs pending r) s.pending delta;
  denied = bump (belongs denied r) s.denied delta;
  approved = bump (belongs approved r) s.approved delta;
  banned = bump (belongs banned r) s.banned delta;
  deactivated = bump (belongs deactivated r) s.deactivated delta;
  total_response_time_in_minutes = total;
  male_count = bump (belongs male r) s.male_count delta;
  female_count = bump (belongs female r) s.female_count delta;
  other_gender_count = bump (belongs other r) s.other_gender_count delta;
  age_group1_count = bump (belongs group1 r) s.age_group1_count delta;
  age_group2_count = bump (belongs group2 r) s.age_group2_count delta;
  age_group3_count = bump (belongs group3 r) s.age_group3_count delta;
  age_group4_count = bump (belongs group4 r) s.age_group4_count delta;
}

pub read-bumped_by :
    {F : Type 0} (c : Counter) (delta : ℕ) (r : Request) (total : F) (s : Stats F)
    → read c (bumped_by delta r total s) ≡ bump (belongs c r) (read c s) delta
read-bumped_by pending delta r total s = refl
read-bumped_by denied delta r total s = refl
read-bumped_by approved delta r total s = refl
read-bumped_by banned delta r total s = refl
read-bumped_by deactivated delta r total s = refl
read-bumped_by male delta r total s = refl
read-bumped_by female delta r total s = refl
read-bumped_by other delta r total s = refl
read-bumped_by group1 delta r total s = refl
read-bumped_by group2 delta r total s = refl
read-bumped_by group3 delta r total s = refl
read-bumped_by group4 delta r total s = refl

pub read-get_stats :
    {F : Type 0} (c : Counter) (h : Hash F) → read c (get_stats h) ≡ h.ints (field c)
unfolding get_stats
read-get_stats pending h = refl
read-get_stats denied h = refl
read-get_stats approved h = refl
read-get_stats banned h = refl
read-get_stats deactivated h = refl
read-get_stats male h = refl
read-get_stats female h = refl
read-get_stats other h = refl
read-get_stats group1 h = refl
read-get_stats group2 h = refl
read-get_stats group3 h = refl
read-get_stats group4 h = refl

abbrev pub with_status : String → Request → Request
with_status u r = record r { status = u }

-- A status that the switches do not name.
pub record IsUnknown (u : String) : Type 0 where
  pub not_approved : (u == "Approved") ≡ false
  pub not_denied : (u == "Denied") ≡ false
  pub not_pending : (u == "Pending") ≡ false
  pub not_banned : (u == "Banned") ≡ false
  pub not_deactivated : (u == "Deactivated") ≡ false

-- A proof by the cases of the switches.
pub by_status :
    (P : String → Type 0)
    → P "Approved"
    → P "Denied"
    → P "Pending"
    → P "Banned"
    → P "Deactivated"
    → ((u : String) → IsUnknown u → P u)
    → (u : String) → P u
by_status P a d p b x unknown u = elim (Bool-cases (u == "Approved")) [
  | inl e ↦ named "Approved" e a
  | inr na ↦ elim (Bool-cases (u == "Denied")) [
    | inl e ↦ named "Denied" e d
    | inr nd ↦ elim (Bool-cases (u == "Pending")) [
      | inl e ↦ named "Pending" e p
      | inr np ↦ elim (Bool-cases (u == "Banned")) [
        | inl e ↦ named "Banned" e b
        | inr nb ↦ elim (Bool-cases (u == "Deactivated")) [
          | inl e ↦ named "Deactivated" e x
          | inr nx ↦ unknown u (record {
            not_approved = na;
            not_denied = nd;
            not_pending = np;
            not_banned = nb;
            not_deactivated = nx;
          })
        ]
      ]
    ]
  ]
]
  where
    named : (v : String) → (u == v) ≡ true → P v → P u
    named v e h = subst P (sym ((eq_iff u v).0 e)) h
