-- ===== src/Cache/Aggregate/Tally.antt =====
-- What the aggregated statistics say of an op, against the requests that the op has handled.
use mc_gatekeeper.Prelude.{
  ℕ, suc, ◌+◌, ◌<◌, String, Bool, true, false, ◌==◌, Option, none, some, List, [], ◌∷◌, length,
  count_if, ◌≡◌, refl, sym, ap, subst, ◌≤◌, ◌∙◌, inl, inr, Bool-cases, Option-cases, arith, eq_iff,
  eq_refl, if◌then◌else◌,
}
use mathlib.Core.Option
use mc_gatekeeper.Types.{Request}
use mc_gatekeeper.Cache.{add64}
use mc_gatekeeper.Cache.Aggregate.{
  JsonPerformance, JsonStats, exported, all_exported, json_stats, Performance, Performances,
  is_pending, is_fulfilled, performance_of, set_performance, count_overtime, first_handled,
  next_handled, handle_fulfilled, handle_all, aggregate, update_aggregate_stats,
}
use Prim.Native.Nat.{◌^◌}

module _ {F : Type 0} where
  performance_of-same :
      (admin : String) (p : Performance F) (ps : Performances F)
      → performance_of admin (set_performance admin p ps) ≡ some p
  unfolding performance_of set_performance
  performance_of-same admin p [] = rw (eq_refl admin) refl
  performance_of-same admin p ((name, q) ∷ rest) = elim (Bool-cases (name == admin)) [
    | inl e ↦ simp (e, set_performance, performance_of) refl
    | inr e ↦ simp (e, set_performance, performance_of) (performance_of-same admin p rest)
  ]

  performance_of-other :
      (a b : String) (p : Performance F) (ps : Performances F)
      → (b == a) ≡ false
      → performance_of a (set_performance b p ps) ≡ performance_of a ps
  unfolding performance_of set_performance
  performance_of-other a b p [] e = simp (e, performance_of) refl
  performance_of-other a b p ((name, q) ∷ rest) e = elim (Bool-cases (name == b)) [
    | inl s ↦
        let n = ap (λ x. x == a) ((eq_iff name b).0 s) ∙ e in
        simp (s, n, set_performance, performance_of) refl
    | inr s ↦ elim (Bool-cases (name == a)) [
      | inl h ↦ simp (s, h, set_performance, performance_of) refl
      | inr h ↦ simp (s, h, set_performance, performance_of) (performance_of-other a b p rest e)
    ]
  ]

  performance_of-exported :
      (admin : String) (ps : Performances F)
      → performance_of admin (all_exported ps) ≡ Option.map exported (performance_of admin ps)
  unfolding performance_of all_exported
  performance_of-exported admin [] = refl
  performance_of-exported admin ((name, q) ∷ rest) = elim (Bool-cases (name == admin)) [
    | inl e ↦ rw e refl
    | inr e ↦ rw e (performance_of-exported admin rest)
  ]

module _ {F : Type 0} (plus over : F → F → F) (of_int : ℕ → F) (minutes : ℕ → ℕ → F)
    (is_day : ℕ → ℕ → Bool) where
  -- The times of the requests that an op has handled, the first one first.
  abbrev pub times_of : String → List Request → List F
  times_of admin [] = []
  times_of admin (r ∷ rs) =
      let rest = times_of admin rs in
      if r.admin == admin then minutes r.timestamp r.processed_timestamp ∷ rest else rest

  abbrev pub sum_from : F → List F → F
  sum_from t [] = t
  sum_from t (x ∷ xs) = sum_from (plus t x) xs

  -- What is shown of an op, from the times alone: their number and their mean.
  abbrev pub tally : List F → Option (JsonPerformance F)
  tally [] = none
  tally (x ∷ xs) = some (record {
    total_handled = length (x ∷ xs);
    average_response_time_in_minutes = over (sum_from x xs) (of_int (length (x ∷ xs)));
  })

  -- The same with their sum, which is kept beside them.
  abbrev full_tally : List F → Option (Performance F)
  full_tally [] = none
  full_tally (x ∷ xs) = some (record {
    total_handled = length (x ∷ xs);
    average_response_time_in_minutes = over (sum_from x xs) (of_int (length (x ∷ xs)));
    total_response_time_in_minutes = sum_from x xs;
  })

  -- What one op's entry goes through.
  abbrev entry : Option (Performance F) → F → Performance F
  entry none t = first_handled plus over of_int minutes is_day t
  entry (some p) t = next_handled plus over of_int minutes is_day t p

  follow : Option (Performance F) → List F → Option (Performance F)
  follow o [] = o
  follow o (t ∷ ts) = follow (some (entry o t)) ts

  all_handled : List Request → Performances F → Performances F
  all_handled rs ps = handle_all plus over of_int minutes is_day rs ps

  handled-other :
      (admin : String) (r : Request) (ps : Performances F)
      → (r.admin == admin) ≡ false
      → performance_of admin (handle_fulfilled plus over of_int minutes is_day r ps)
        ≡ performance_of admin ps
  unfolding handle_fulfilled
  handled-other admin r ps e = elim (Option-cases (performance_of r.admin ps)) [
    | inl n ↦ simp (n, handle_fulfilled) (performance_of-other admin r.admin _ ps e)
    | inr (p, n) ↦ simp (n, handle_fulfilled) (performance_of-other admin r.admin _ ps e)
  ]

  handled-same :
      (r : Request) (ps : Performances F)
      → performance_of r.admin (handle_fulfilled plus over of_int minutes is_day r ps)
        ≡ some (entry (performance_of r.admin ps) (minutes r.timestamp r.processed_timestamp))
  unfolding handle_fulfilled
  handled-same r ps = elim (Option-cases (performance_of r.admin ps)) [
    | inl n ↦ simp (n, handle_fulfilled) (performance_of-same r.admin _ ps)
    | inr (p, n) ↦ simp (n, handle_fulfilled) (performance_of-same r.admin _ ps)
  ]

  handled-follow :
      (admin : String) (rs : List Request) (ps : Performances F)
      → performance_of admin (all_handled rs ps)
        ≡ follow (performance_of admin ps) (times_of admin rs)
  unfolding all_handled handle_all follow
  handled-follow admin [] ps = refl
  handled-follow admin (r ∷ rs) ps =
      let ih = handled-follow admin rs (handle_fulfilled plus over of_int minutes is_day r ps) in
      elim (Bool-cases (r.admin == admin)) [
        | inr e ↦ rw e (ih ∙ ap (λ o. follow o (times_of admin rs)) (handled-other admin r ps e))
        | inl e ↦
            let same =
              subst
                (λ a.
                  performance_of a (handle_fulfilled plus over of_int minutes is_day r ps)
                  ≡ some (entry (performance_of a ps) (minutes r.timestamp r.processed_timestamp)))
                ((eq_iff r.admin admin).0 e) (handled-same r ps) in
            rw e (ih ∙ ap (λ o. follow o (times_of admin rs)) same)
      ]

  -- What is documented of float64, for numbers that it has.
  pub record IsFloat : Type 0 where
    pub next_int : (n : ℕ) → n < 2 ^ 53 → plus (of_int n) (of_int 1) ≡ of_int (suc n)
    pub over_one : (x : F) → over x (of_int 1) ≡ x

  -- The entry of an op after some requests.
  abbrev after : ℕ → F → Performance F
  after n t = record {
    total_handled = n;
    average_response_time_in_minutes = over t (of_int n);
    total_response_time_in_minutes = t;
  }

  module _ (laws : IsFloat) where
    next-after :
        (n : ℕ) (t x : F)
        → n < 2 ^ 53
        → next_handled plus over of_int minutes is_day x (after n t) ≡ after (suc n) (plus t x)
    next-after n t x small =
        let count : add64 n 1 ≡ suc n = omega (arith, small) in
        rw (count, laws.next_int n small) refl

    follow-after :
        (n : ℕ) (t : F) (ts : List F)
        → n + length ts < 2 ^ 53
        → follow (some (after n t)) ts ≡ some (after (n + length ts) (sum_from t ts))
    unfolding follow
    follow-after n t [] small = let e : n ≡ n + 0 = omega arith in ap (λ k. some (after k t)) e
    follow-after n t (x ∷ ts) small =
        let k : suc n + length ts ≡ n + suc (length ts) = omega arith in
        ap (λ p. follow (some p) ts) (next-after n t x (omega (arith, small)))
        ∙ follow-after (suc n) (plus t x) ts (omega (arith, small))
        ∙ ap (λ m. some (after m (sum_from (plus t x) ts))) k

    follow-tally : (ts : List F) → length ts < 2 ^ 53 → follow none ts ≡ full_tally ts
    unfolding follow
    follow-tally [] small = refl
    follow-tally (x ∷ ts) small =
        let k : 1 + length ts ≡ suc (length ts) = omega arith in
        ap
          (λ mean.
            follow (some (record (after 1 x) { average_response_time_in_minutes = mean })) ts)
          (sym (laws.over_one x))
        ∙ follow-after 1 x ts (omega (arith, small))
        ∙ ap (λ m. some (after m (sum_from x ts))) k

  times-length : (admin : String) (rs : List Request) → length (times_of admin rs) ≤ length rs
  times-length admin [] = omega arith
  times-length admin (r ∷ rs) = elim (Bool-cases (r.admin == admin)) [
    | inl e ↦ rw e (omega (arith, times-length admin rs))
    | inr e ↦ rw e (omega (arith, times-length admin rs))
  ]

  overtime-count :
      (now : ℕ) (rs : List Request) (n : ℕ)
      → n + length rs < 2 ^ 64
      → count_overtime plus over of_int minutes is_day now rs n
        ≡ n + count_if (λ r. is_day r.timestamp now) rs
  unfolding count_overtime
  overtime-count now [] n small = omega arith
  overtime-count now (r ∷ rs) n small = elim (Bool-cases (is_day r.timestamp now)) [
    | inl e ↦ rw e (omega (arith, small, overtime-count now rs (add64 n 1) (omega (arith, small))))
    | inr e ↦ rw e (omega (arith, small, overtime-count now rs n (omega (arith, small))))
  ]

  exported-tally : (ts : List F) → Option.map exported (full_tally ts) ≡ tally ts
  exported-tally [] = refl
  exported-tally (x ∷ ts) = refl

  -- The JSON that is stored counts the pending requests that are a day old and, for each op, has the
  -- number and the mean time of the requests that the op has handled, and nothing for one who has
  -- handled none, where the two queries succeed and return fewer than 2^53 requests, by the laws of
  -- float64.
  pub update_aggregate_stats-tally :
      (laws : IsFloat) (now : ℕ) (get_requests : (Request → Bool) → Option (List Request))
      (marshal : JsonStats F → Option String) (admin : String)
      (pending_requests fulfilled_requests : List Request)
      → get_requests is_pending ≡ some pending_requests
      → get_requests is_fulfilled ≡ some fulfilled_requests
      → length pending_requests < 2 ^ 53
      → length fulfilled_requests < 2 ^ 53
      → let s =
          json_stats
            (aggregate plus over of_int minutes is_day now pending_requests fulfilled_requests) in
        (update_aggregate_stats plus over of_int minutes is_day now get_requests marshal true
          ≡ marshal s)
        × (s.overtime_count ≡ count_if (λ r. is_day r.timestamp now) pending_requests)
        × (performance_of admin s.admin_performance ≡ tally (times_of admin fulfilled_requests))
  unfolding update_aggregate_stats aggregate json_stats performance_of all_handled
  update_aggregate_stats-tally laws now get_requests marshal admin ps fs pending done few_ps
        few_fs =
      (
        simp (pending, done, update_aggregate_stats) refl,
        omega (arith, overtime-count now ps 0 (omega (arith, few_ps))),
        performance_of-exported admin (all_handled fs [])
            ∙ ap (Option.map exported) (
                handled-follow admin fs []
                ∙ follow-tally laws (times_of admin fs)
                    (omega (arith, few_fs, times-length admin fs)))
            ∙ exported-tally (times_of admin fs),
      )
