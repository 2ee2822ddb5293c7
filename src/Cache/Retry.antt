-- ===== src/Cache/Retry.antt =====
-- `UpdateRealTimeStats` with its retries against the numbers of requests.
use mc_gatekeeper.Prelude.{
  ℕ, zero, suc, Bool, true, false, not, ◌&&◌, ◌||◌, ◌==◌, String, Bool-cases, none, some, List, [],
  ◌∷◌, ◌++◌, ◌≡◌, ◌⊎◌, refl, sym, ap, subst, ◌∙◌, inl, inr, if◌then◌else◌,
}
use mathlib.Core.Bool.{true≢false}
use mc_gatekeeper.Types.{Request}
use mc_gatekeeper.Cache.{
  Hash, Arg, int, float, set, Stats, get_stats, hmset, minus_one, write, changes, Attempt, runs,
  fails, lacks_fields, average, update_age_gender_stats, update_loop, update_real_time_stats,
}
use mc_gatekeeper.Dashboard.Landing.Transitions.{◌⟶◌, approving, denying, deactivating, banning}
use mc_gatekeeper.Cache.Counters.{
  Counter, read, read-bumped_by, read-get_stats, bumped_by, number, Counts,
}
use mc_gatekeeper.Cache.Refine.{
  IsChanged, swapped, number-swap, number-cons, args, total, args-swapped, args-created,
  write-get_stats,
}

-- What the database has before and after the change that an update is told of: a request in its
-- new state, or a new one.
pub data Change : List Request → Request → List Request → Type 0 where
  changed :
      (xs ys : List Request) (r r' : Request)
      → IsChanged r r'
      → Change (xs ++ r ∷ ys) r' (xs ++ r' ∷ ys)
  created : (rs : List Request) (r : Request) → r.status ≡ "Pending" → Change rs r (r ∷ rs)

-- The five statuses.
abbrev pub is_told : String → Bool
is_told s =
    s == "Approved" || s == "Denied" || s == "Pending" || s == "Banned" || s == "Deactivated"

-- The statistics after an argument of HMSET.
abbrev patch : {F : Type 0} → Arg F → Stats F → Stats F
patch (int k v) s = record s {
  pending = (if k == "pending" then v else s.pending);
  denied = (if k == "denied" then v else s.denied);
  approved = (if k == "approved" then v else s.approved);
  banned = (if k == "banned" then v else s.banned);
  deactivated = (if k == "deactivated" then v else s.deactivated);
  male_count = (if k == "maleCount" then v else s.male_count);
  female_count = (if k == "femaleCount" then v else s.female_count);
  other_gender_count = (if k == "otherGenderCount" then v else s.other_gender_count);
  age_group1_count = (if k == "ageGroup1Count" then v else s.age_group1_count);
  age_group2_count = (if k == "ageGroup2Count" then v else s.age_group2_count);
  age_group3_count = (if k == "ageGroup3Count" then v else s.age_group3_count);
  age_group4_count = (if k == "ageGroup4Count" then v else s.age_group4_count);
}
patch (float k v) s = record s {
  total_response_time_in_minutes =
      (if k == "totalResponseTimeInMinutes" then v else s.total_response_time_in_minutes);
}

get_stats-set : {F : Type 0} (a : Arg F) (h : Hash F) → get_stats (set a h) ≡ patch a (get_stats h)
unfolding get_stats
get_stats-set (int k v) h = refl
get_stats-set (float k v) h = refl

-- The statistics after HMSET are given by those before it.
get_stats-hmset :
    {F : Type 0} (a : List (Arg F)) (g h : Hash F)
    → get_stats g ≡ get_stats h
    → get_stats (hmset a g) ≡ get_stats (hmset a h)
unfolding hmset
get_stats-hmset [] g h e = e
get_stats-hmset (x ∷ a) g h e =
    get_stats-hmset a (set x g) (set x h)
      (get_stats-set x g ∙ ap (patch x) e ∙ sym (get_stats-set x h))

-- Others write nothing that the statistics read, as `UpdateAggregateStats` does.
abbrev pub IsQuiet : {F : Type 0} → (Hash F → Hash F) → Type 0
IsQuiet {F} others = (h : Hash F) → get_stats (others h) ≡ get_stats h

module _ {F : Type 0} (zero_f : F) (plus over : F → F → F) (is_zero : F → Bool) (of_int : ℕ → F)
    (minutes : ℕ → ℕ → F) where
  abbrev Try : Type 0
  Try = Attempt zero_f plus over is_zero of_int minutes

  abbrev pub IsQuietAttempt : Try → Type 0
  IsQuietAttempt (runs before none) = IsQuiet before
  IsQuietAttempt (runs before (some during)) = IsQuiet before × IsQuiet during
  IsQuietAttempt (fails others) = IsQuiet others

  pending_args : Request → Hash F → List (Arg F)
  pending_args r h = args zero_f plus over is_zero of_int minutes r h

  -- The statistics that a finished update leaves.
  after : Request → Hash F → Stats F
  after r h = get_stats (hmset (pending_args r h) h)

  after_eq : (r : Request) (g h : Hash F) → get_stats g ≡ get_stats h → after r g ≡ after r h
  unfolding after pending_args args
  after_eq r g h e =
      ap (λ s. get_stats (hmset (changes zero_f plus over is_zero of_int minutes r s) g)) e
      ∙ get_stats-hmset _ g h e

  abbrev Ends : Request → Hash F → Hash F × Bool → Type 0
  Ends r h q =
      ((q.1 ≡ true) × (get_stats q.0 ≡ after r h)) ⊎ ((q.1 ≡ false) × (get_stats q.0 ≡ get_stats h))

  Ends-eq :
      (r : Request) (g h : Hash F) (q : Hash F × Bool)
      → get_stats g ≡ get_stats h
      → Ends r g q
      → Ends r h q
  Ends-eq r g h q e (inl (d, k)) = inl (d, k ∙ after_eq r g h e)
  Ends-eq r g h q e (inr (d, k)) = inr (d, k ∙ e)

  abbrev loop : ℕ → (ℕ → Try) → Request → Hash F → Hash F × Bool
  loop n attempt r h = update_loop zero_f plus over is_zero of_int minutes n attempt r h

  write-after :
      (r : Request) (g h : Hash F)
      → get_stats g ≡ get_stats h
      → get_stats (write zero_f plus over is_zero of_int minutes r (get_stats h) g) ≡ after r h
  unfolding after pending_args
  write-after r g h e =
      write-get_stats zero_f plus over is_zero of_int minutes r h g ∙ get_stats-hmset _ g h e

  -- An update for one of the five statuses writes a field.
  lacks_fields-told :
      (r : Request) (s : Stats F)
      → is_told r.status ≡ true
      → lacks_fields zero_f plus over is_zero of_int minutes (
          changes zero_f plus over is_zero of_int minutes r s
          ++ average zero_f plus over is_zero of_int minutes r s)
        ≡ false
  unfolding changes update_age_gender_stats
  lacks_fields-told r s told = elim (Bool-cases (r.status == "Approved")) [
    | inl a ↦ simp (a, changes) refl
    | inr a ↦ elim (Bool-cases (r.status == "Denied")) [
      | inl d ↦ simp (a, d, changes) refl
      | inr d ↦ elim (Bool-cases (r.status == "Pending")) [
        | inl p ↦ simp (a, d, p, changes) refl
        | inr p ↦ elim (Bool-cases (r.status == "Banned")) [
          | inl b ↦ simp (a, d, p, b, changes) refl
          | inr b ↦ elim (Bool-cases (r.status == "Deactivated")) [
            | inl k ↦ simp (a, d, p, b, k, changes) refl
            | inr k ↦ absurd (true≢false (sym told ∙ simp (a, d, p, b, k) refl))
          ]
        ]
      ]
    ]
  ]

  Change-told : (rs rs' : List Request) (r : Request) → Change rs r rs' → is_told r.status ≡ true
  Change-told _ _ _ (changed xs ys old r (move, _, _)) = told_move move
    where
      told_move : {s u : String} → s ⟶ u → is_told u ≡ true
      told_move approving = refl
      told_move denying = refl
      told_move deactivating = refl
      told_move banning = refl
  Change-told _ _ _ (created rs r e) = ap is_told e

  loop-Ends :
      (n : ℕ) (attempt : ℕ → Try) (r : Request) (h : Hash F)
      → is_told r.status ≡ true
      → ((k : ℕ) → IsQuietAttempt (attempt k))
      → Ends r h (loop n attempt r h)
  unfolding update_loop
  loop-Ends zero attempt r h told quiet = inr (refl, refl)
  loop-Ends (suc n) attempt r h told quiet =
      go (attempt n) refl (quiet n) (λ g. loop-Ends n attempt r g told quiet)
    where
      go :
          (a : Try)
          → attempt n ≡ a
          → IsQuietAttempt a
          → ((g : Hash F) → Ends r g (loop n attempt r g))
          → Ends r h (loop (suc n) attempt r h)
      go (fails others) e q rest = rw (e, update_loop) (inr (refl, q h))
      go (runs before none) e q rest =
          rw (e, update_loop, lacks_fields-told r (get_stats h) told)
            (inl (refl, write-after r (before h) h (q h)))
      go (runs before (some during)) e q rest =
          rw (e, update_loop)
            (Ends-eq r (during (before h)) h (loop n attempt r (during (before h)))
              (q.1 (before h) ∙ q.0 h) (rest (during (before h))))

  whole : Request → Hash F → F
  whole r h = total zero_f plus over is_zero of_int minutes r h

  abbrev IsSwapped : Request → Hash F → Request → Type 0
  IsSwapped old h new = after new h ≡ swapped old new (whole new h) (get_stats h)

  abbrev IsAdded : Hash F → Request → Type 0
  IsAdded h new = after new h ≡ bumped_by 1 new (whole new h) (get_stats h)

  changed-after :
      (old r : Request) (h : Hash F)
      → IsChanged old r
      → after r h ≡ swapped old r (whole r h) (get_stats h)
  unfolding after pending_args whole
  changed-after old r h (move, same_gender, same_age) =
      subst (λ a. IsSwapped old h (record r { age = a })) (sym same_age)
        (subst (λ g. IsSwapped old h (record r { gender = g; age = old.age })) (sym same_gender)
          (args-swapped zero_f plus over is_zero of_int minutes move old r h))

  created-after :
      (r : Request) (h : Hash F)
      → r.status ≡ "Pending"
      → after r h ≡ bumped_by 1 r (whole r h) (get_stats h)
  unfolding after pending_args whole
  created-after r h e =
      subst (λ u. IsAdded h (record r { status = u })) (sym e)
        (args-created zero_f plus over is_zero of_int minutes r h)

  after-number :
      (rs rs' : List Request) (r : Request) (h : Hash F) (c : Counter)
      → Change rs r rs'
      → Counts h rs c
      → read c (after r h) ≡ number c rs'
  after-number _ _ _ h c (changed xs ys old r move) k =
      let now = ap (read c) (changed-after old r h move) in
      let then_now =
        read-bumped_by c minus_one old (whole r h) (bumped_by 1 r (whole r h) (get_stats h)) in
      now
      ∙ then_now
      ∙ rw (read-bumped_by c 1 r (whole r h) (get_stats h), read-get_stats c h, k)
          (sym (number-swap c old r xs ys))
  after-number _ _ _ h c (created rs r e) k =
      ap (read c) (created-after r h e)
      ∙ rw (read-bumped_by c 1 r (whole r h) (get_stats h), read-get_stats c h, k)
          (sym (number-cons c r rs))

  -- Is the n-th attempt disturbed between WATCH and EXEC?
  abbrev pub is_disturbed : Try → Bool
  is_disturbed (runs before none) = false
  is_disturbed (runs before (some during)) = true
  is_disturbed (fails others) = false

  abbrev pub has_failed : Try → Bool
  has_failed (fails others) = true
  has_failed _ = false

  abbrev pub all_below : ℕ → (ℕ → Bool) → Bool
  all_below zero p = true
  all_below (suc n) p = p n && all_below n p

  loop-made :
      (n : ℕ) (attempt : ℕ → Try) (r : Request) (h : Hash F)
      → is_told r.status ≡ true
      → ((k : ℕ) → has_failed (attempt k) ≡ false)
      → (loop n attempt r h).1 ≡ not (all_below n (λ k. is_disturbed (attempt k)))
  unfolding update_loop
  loop-made zero attempt r h told works = refl
  loop-made (suc n) attempt r h told works =
      go (attempt n) refl (works n) (λ g. loop-made n attempt r g told works)
    where
      go :
          (a : Try)
          → attempt n ≡ a
          → has_failed a ≡ false
          → ((g : Hash F)
              → (loop n attempt r g).1 ≡ not (all_below n (λ k. is_disturbed (attempt k))))
          → (loop (suc n) attempt r h).1 ≡ not (all_below (suc n) (λ k. is_disturbed (attempt k)))
      go (fails others) e w rest = absurd (true≢false w)
      go (runs before none) e w rest =
          rw (e, update_loop, lacks_fields-told r (get_stats h) told) refl
      go (runs before (some during)) e w rest = rw (e, update_loop) (rest (during (before h)))

  -- Where no command of redis fails, an update for one of the five statuses is made, unless all of its five attempts are
  -- disturbed between WATCH and EXEC.
  pub update_real_time_stats-made :
      (attempt : ℕ → Try) (r : Request) (h : Hash F)
      → is_told r.status ≡ true
      → ((k : ℕ) → has_failed (attempt k) ≡ false)
      → (update_real_time_stats zero_f plus over is_zero of_int minutes attempt r h).1
        ≡ not (all_below 5 (λ k. is_disturbed (attempt k)))
  unfolding update_real_time_stats
  update_real_time_stats-made attempt r h told works = loop-made 5 attempt r h told works

  -- While others leave the statistics alone, an update that is told of a change keeps the counters
  -- at the numbers of requests: either it is made, and they are right for the requests after the
  -- change, or it gives up or fails, and they still are for those before it.
  pub update_real_time_stats-Counts :
      (attempt : ℕ → Try) (rs rs' : List Request) (r : Request) (h : Hash F)
      → ((k : ℕ) → IsQuietAttempt (attempt k))
      → Change rs r rs'
      → ((c : Counter) → Counts h rs c)
      → let q = update_real_time_stats zero_f plus over is_zero of_int minutes attempt r h in
        ((q.1 ≡ true) × ((c : Counter) → Counts q.0 rs' c))
        ⊎ ((q.1 ≡ false) × ((c : Counter) → Counts q.0 rs c))
  unfolding update_real_time_stats
  update_real_time_stats-Counts attempt rs rs' r h quiet change counts =
      elim (loop-Ends 5 attempt r h (Change-told rs rs' r change) quiet) [
        | inl (d, e) ↦ inl (
          d,
          λ c.
              sym (read-get_stats c (loop 5 attempt r h).0)
              ∙ ap (read c) e
              ∙ after-number rs rs' r h c change (counts c),
        )
        | inr (d, e) ↦ inr (
          d,
          λ c.
              sym (read-get_stats c (loop 5 attempt r h).0)
              ∙ ap (read c) e
              ∙ read-get_stats c h
              ∙ counts c,
        )
      ]
