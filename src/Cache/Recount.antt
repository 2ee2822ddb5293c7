-- ===== src/Cache/Recount.antt =====
-- `SyncStats` against the numbers of requests.
use mc_gatekeeper.Prelude.{
  ℕ, ◌+◌, ◌%◌, ◌<◌, Bool, List, [], ◌∷◌, count_if, ◌≡◌, ◌≢◌, refl, ap, ◌∙◌, arith, inl, inr,
  Bool-cases,
}
use mc_gatekeeper.Types.{Request}
use mc_gatekeeper.Cache.{Hash, Stats, add64}
use mc_gatekeeper.Cache.Sync.{none_yet, count_request, count_requests, sync}
use mc_gatekeeper.Cache.Counters.{
  Counter, pending, denied, approved, banned, deactivated, male, female, other, group1, group2,
  group3, group4, read, by_status, with_status, bumped_by, read-bumped_by, field, belongs, Counts,
}
use Prim.Native.Nat.{◌^◌}

module _ {F : Type 0} (zero_f : F) (plus over : F → F → F) (is_zero : F → Bool) (of_int : ℕ → F)
    (response_time : Request → F) where
  round : Request → Stats F → Stats F
  round r s = count_request zero_f plus over is_zero of_int response_time r s

  total : Request → Stats F → F
  total r s = (round r s).total_response_time_in_minutes

  -- A round counts the request in each counter that it belongs to.
  round-bumped : (r : Request) (s : Stats F) → round r s ≡ bumped_by 1 r (total r s) s
  unfolding round total count_request
  round-bumped r s =
      by_status
        (λ u.
          round (with_status u r) s ≡ bumped_by 1 (with_status u r) (total (with_status u r) s) s)
        refl refl refl refl refl
        (λ u n.
          rw
            (
              n.not_approved, n.not_denied, n.not_pending, n.not_banned, n.not_deactivated, total,
              round, count_request,
            )
            refl)
        r.status

  count : List Request → Stats F → Stats F
  count rs s = count_requests zero_f plus over is_zero of_int response_time rs s

  loop-counts :
      (c : Counter) (rs : List Request) (s : Stats F)
      → read c s < 2 ^ 64
      → read c (count rs s) ≡ (read c s + count_if (belongs c) rs) % 2 ^ 64
  unfolding count count_requests round
  loop-counts c [] s h = omega (arith, h)
  loop-counts c (r ∷ rs) s h =
      let one = ap (read c) (round-bumped r s) ∙ read-bumped_by c 1 r (total r s) s in
      elim (Bool-cases (belongs c r)) [
        | inl b ↦
            let e : read c (round r s) ≡ add64 (read c s) 1 = one ∙ rw b refl in
            let more = loop-counts c rs (round r s) (omega (arith, e)) in
            rw b (omega (arith, e, more))
        | inr b ↦
            let e : read c (round r s) ≡ read c s = one ∙ rw b refl in
            let more = loop-counts c rs (round r s) (omega (arith, e, h)) in
            rw b (omega (arith, e, more))
      ]

  empty : (c : Counter) → read c (none_yet zero_f) ≡ 0
  empty pending = refl
  empty denied = refl
  empty approved = refl
  empty banned = refl
  empty deactivated = refl
  empty male = refl
  empty female = refl
  empty other = refl
  empty group1 = refl
  empty group2 = refl
  empty group3 = refl
  empty group4 = refl

  -- The field that SyncStats writes for a counter.
  written :
      (c : Counter) (rs : List Request) (h : Hash F)
      → c ≢ deactivated
      → (sync zero_f plus over is_zero of_int response_time rs h).ints (field c)
        ≡ read c (count rs (none_yet zero_f))
  unfolding sync count
  written pending rs h named = refl
  written denied rs h named = refl
  written approved rs h named = refl
  written banned rs h named = refl
  written deactivated rs h named = absurd (named refl)
  written male rs h named = refl
  written female rs h named = refl
  written other rs h named = refl
  written group1 rs h named = refl
  written group2 rs h named = refl
  written group3 rs h named = refl
  written group4 rs h named = refl

  -- SyncStats gives each counter the number of requests that it is meant to count, but for the one
  -- of deactivated requests, which keeps the value that it had.
  pub sync-Counts :
      (rs : List Request) (h : Hash F)
      → let q = sync zero_f plus over is_zero of_int response_time rs h in
        ((c : Counter) → c ≢ deactivated → Counts q rs c)
        × (q.ints (field deactivated) ≡ h.ints (field deactivated))
  unfolding sync
  sync-Counts rs h = (
    λ c named.
        written c rs h named
        ∙ loop-counts c rs (none_yet zero_f) (omega (arith, empty c))
        ∙ omega (arith, empty c),
    refl,
  )
