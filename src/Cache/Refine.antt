-- ===== src/Cache/Refine.antt =====
-- The update of the statistics by one change against the numbers of requests.
use mc_gatekeeper.Prelude.{
  ℕ, String, Bool, true, false, List, [], ◌∷◌, ◌++◌, count_if-append, ◌≡◌, refl, sym, ap, ◌∙◌,
  arith, inl, inr, Bool-cases,
}
use mc_gatekeeper.Types.{Request}
use mc_gatekeeper.Dashboard.Landing.Transitions.{◌⟶◌, approving, denying, deactivating, banning}
use mc_gatekeeper.Cache.{
  Hash, Arg, set, Stats, get_stats, hmset, bump, minus_one, write, changes, average, next,
  update_age_gender_stats,
}
use mc_gatekeeper.Cache.Counters.{Counter, read, bumped_by, read-get_stats, field, belongs, number}

-- A request after a change of its status.
abbrev pub IsChanged : Request → Request → Type 0
IsChanged r r' = (r.status ⟶ r'.status) × (r'.gender ≡ r.gender) × (r'.age ≡ r.age)

-- A request taken from the counters, and the one put in its place.
abbrev pub swapped : {F : Type 0} → Request → Request → F → Stats F → Stats F
swapped r r' total s = bumped_by minus_one r total (bumped_by 1 r' total s)

abbrev indicator : Bool → ℕ
indicator b = elim b [ true ↦ 1 | false ↦ 0 ]

one : (b : Bool) → b ≡ true → indicator b ≡ 1
one b e = rw e refl

none_of : (b : Bool) → b ≡ false → indicator b ≡ 0
none_of b e = rw e refl

pub number-swap :
    (c : Counter) (r r' : Request) (xs ys : List Request)
    → number c (xs ++ r' ∷ ys)
      ≡ bump (belongs c r) (bump (belongs c r') (number c (xs ++ r ∷ ys)) 1) minus_one
number-swap c r r' xs ys =
    let before = count_if-append (belongs c) xs (r ∷ ys) in
    let after = count_if-append (belongs c) xs (r' ∷ ys) in
    elim (Bool-cases (belongs c r)) [
      | inl a ↦ elim (Bool-cases (belongs c r')) [
        | inl b ↦
            rw (a, b) (omega (arith, before, after, one (belongs c r) a, one (belongs c r') b))
        | inr b ↦
            rw (a, b) (omega (arith, before, after, one (belongs c r) a, none_of (belongs c r') b))
      ]
      | inr a ↦ elim (Bool-cases (belongs c r')) [
        | inl b ↦
            rw (a, b) (omega (arith, before, after, none_of (belongs c r) a, one (belongs c r') b))
        | inr b ↦
            rw (a, b)
              (omega (arith, before, after, none_of (belongs c r) a, none_of (belongs c r') b))
      ]
    ]

pub number-cons :
    (c : Counter) (r : Request) (xs : List Request)
    → number c (r ∷ xs) ≡ bump (belongs c r) (number c xs) 1
number-cons c r xs = elim (Bool-cases (belongs c r)) [
  | inl a ↦ rw a (omega arith)
  | inr a ↦ rw a (omega arith)
]

pub hmset-append :
    {F : Type 0} (a b : List (Arg F)) (h : Hash F) → hmset (a ++ b) h ≡ hmset b (hmset a h)
unfolding hmset
hmset-append [] b h = refl
hmset-append (x ∷ a) b h = hmset-append a b (set x h)

module _ {F : Type 0} (zero_f : F) (plus over : F → F → F) (is_zero : F → Bool) (of_int : ℕ → F)
    (minutes : ℕ → ℕ → F) where
  unfoldable pub args : Request → Hash F → List (Arg F)
  args r g = changes zero_f plus over is_zero of_int minutes r (get_stats g)

  -- The average goes to a field that the statistics do not read.
  average-get_stats :
      (r : Request) (g h : Hash F)
      → get_stats (hmset (average zero_f plus over is_zero of_int minutes r (get_stats g)) h)
        ≡ get_stats h
  unfolding average hmset get_stats
  average-get_stats r g h =
      elim (Bool-cases (
        is_zero
          (next zero_f plus over is_zero of_int minutes r
            (get_stats g)).total_response_time_in_minutes)) [
              | inl e ↦ rw e refl
              | inr e ↦ rw e refl
            ]

  pub write-get_stats :
      (r : Request) (g h : Hash F)
      → get_stats (write zero_f plus over is_zero of_int minutes r (get_stats g) h)
        ≡ get_stats (hmset (args r g) h)
  unfolding write args
  write-get_stats r g h =
      ap get_stats (hmset-append (args r g) _ h) ∙ average-get_stats r g (hmset (args r g) h)

  -- The counter that a transaction leaves.
  pub ints-write :
      (c : Counter) (r : Request) (g h : Hash F)
      → (write zero_f plus over is_zero of_int minutes r (get_stats g) h).ints (field c)
        ≡ read c (get_stats (hmset (args r g) h))
  ints-write c r g h =
      sym (read-get_stats c (write zero_f plus over is_zero of_int minutes r (get_stats g) h))
      ∙ ap (read c) (write-get_stats r g h)

  unfoldable pub total : Request → Hash F → F
  total r h = (get_stats (hmset (args r h) h)).total_response_time_in_minutes

  pub args-swapped :
      {s u : String} (m : s ⟶ u) (r r' : Request) (h : Hash F)
      → let new = record r' { status = u; gender = r.gender; age = r.age } in
        get_stats (hmset (args new h) h)
        ≡ swapped (record r { status = s }) new (total new h) (get_stats h)
  unfolding args total changes next update_age_gender_stats get_stats hmset
  args-swapped approving r r' h = refl
  args-swapped denying r r' h = refl
  args-swapped deactivating r r' h = refl
  args-swapped banning r r' h = refl

  pub args-created :
      (r : Request) (h : Hash F)
      → let new = record r { status = "Pending" } in
        get_stats (hmset (args new h) h) ≡ bumped_by 1 new (total new h) (get_stats h)
  unfolding args total changes next update_age_gender_stats get_stats hmset
  args-created r h = refl
