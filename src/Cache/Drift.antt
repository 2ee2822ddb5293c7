-- ===== src/Cache/Drift.antt =====
-- Where the counters of the statistics leave the numbers of requests.
use mc_gatekeeper.Prelude.{ℕ, String, Bool, true, none, List, ◌∷◌, ◌++◌, ◌≡◌, refl, sym, ap, ◌∙◌}
use mc_gatekeeper.Types.{Request}
use mc_gatekeeper.Cache.{
  Hash, get_stats, hmset, add64, minus_one, write, changes, next, update_age_gender_stats, runs,
  update_loop, update_real_time_stats,
}
use mc_gatekeeper.Cache.Counters.{
  Counter, pending, approved, read, with_status, field, number, Counts,
}
use mc_gatekeeper.Cache.Refine.{ints-write, number-swap, args}

module _ {F : Type 0} (zero_f : F) (plus over : F → F → F) (is_zero : F → Bool) (of_int : ℕ → F)
    (minutes : ℕ → ℕ → F) where
  -- The transaction of an update that nothing disturbs.
  abbrev pub alone : Request → Hash F → Hash F
  alone r h = write zero_f plus over is_zero of_int minutes r (get_stats h) h

  pending-write :
      (r : Request) (g h : Hash F)
      → (write zero_f plus over is_zero of_int minutes
            (with_status "Pending" r)
            (get_stats g)
            h).ints
          "pending"
        ≡ add64 (g.ints "pending") 1
  unfolding args changes next hmset get_stats
  pending-write r g h =
      ints-write zero_f plus over is_zero of_int minutes pending (with_status "Pending" r) g h

  -- WATCH starts after the statistics are read: where another update for a new request is made in
  -- between, in every attempt, this one succeeds, and the two new requests are counted as one.
  pub update_real_time_stats-lost :
      (r other : Request) (h : Hash F)
      → let q =
          update_real_time_stats zero_f plus over is_zero of_int minutes
            (λ k. runs (alone (with_status "Pending" other)) none)
            (with_status "Pending" r)
            h in
        (q.1 ≡ true) × (q.0.ints (field pending) ≡ add64 (h.ints (field pending)) 1)
  unfolding update_real_time_stats update_loop changes
  update_real_time_stats-lost r other h =
      (refl, pending-write r h (alone (with_status "Pending" other) h))

  once :
      (c : Counter) (u : String) (r : Request) (h : Hash F)
      → (alone (with_status u r) h).ints (field c)
        ≡ read c
            (get_stats (hmset (args zero_f plus over is_zero of_int minutes (with_status u r) h) h))
  once c u r h = ints-write zero_f plus over is_zero of_int minutes c (with_status u r) h h

  -- A pending request that is approved and then denied, as the table lets an op do, is taken off
  -- the pending ones twice and stays counted among the approved ones.
  pub alone-drift :
      (xs ys : List Request) (r : Request) (h : Hash F)
      → Counts h (xs ++ with_status "Pending" r ∷ ys) pending
      → Counts h (xs ++ with_status "Pending" r ∷ ys) approved
      → let q = alone (with_status "Denied" r) (alone (with_status "Approved" r) h) in
        let rs = xs ++ with_status "Denied" r ∷ ys in
        (q.ints (field pending) ≡ add64 (number pending rs) minus_one)
        × (q.ints (field approved) ≡ add64 (number approved rs) 1)
  unfolding args changes next update_age_gender_stats hmset get_stats
  alone-drift xs ys r h p a =
      let h' = alone (with_status "Approved" r) h in
      let fewer = number-swap pending (with_status "Pending" r) (with_status "Denied" r) xs ys in
      let same = number-swap approved (with_status "Pending" r) (with_status "Denied" r) xs ys in
      let p1 : h'.ints "pending" ≡ add64 (h.ints "pending") minus_one =
        once pending "Approved" r h in
      let a1 : h'.ints "approved" ≡ add64 (h.ints "approved") 1 = once approved "Approved" r h in
      let p2 : (alone (with_status "Denied" r) h').ints "pending"
          ≡ add64 (h'.ints "pending") minus_one =
        once pending "Denied" r h' in
      let a2 : (alone (with_status "Denied" r) h').ints "approved" ≡ h'.ints "approved" =
        once approved "Denied" r h' in
      (
        p2 ∙ ap (λ n. add64 n minus_one) (p1 ∙ ap (λ n. add64 n minus_one) p ∙ sym fewer),
        a2 ∙ a1 ∙ ap (λ n. add64 n 1) (a ∙ sym same),
      )
