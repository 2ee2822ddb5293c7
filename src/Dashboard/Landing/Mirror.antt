-- ===== src/Dashboard/Landing/Mirror.antt =====
-- What the answers do to the rows of the landing page.
use mc_gatekeeper.Prelude.{
  ℕ, ◌+◌, String, ◌==◌, nat_eq, Option, none, some, List, [], ◌∷◌, map, ◌≡◌, refl, ap, ◌∙◌, sym,
  arith, inl, inr, Bool-cases, eq_iff, if◌then◌else◌, length,
}
use mathlib.Core.Bool.{true≢false}
use mathlib.Core.Option
use mc_gatekeeper.Js.{fulfilled, rejected}
use mc_gatekeeper.Dashboard.{WhitelistRequest}
use mc_gatekeeper.Dashboard.Landing.{
  LandingPage, on_status_changed, handle_change_request_status, replace, mocked,
}

-- The row with an id.
abbrev pub find : String → List WhitelistRequest → Option WhitelistRequest
find id [] = none
find id (r ∷ rs) = if r.id == id then some r else find id rs

abbrev pub ids : List WhitelistRequest → List String
ids rs = map (λ r. r.id) rs

replace-ids :
    (row : WhitelistRequest) (rs : List WhitelistRequest) → ids (replace row.id row rs) ≡ ids rs
unfolding replace
replace-ids row [] = refl
replace-ids row (r ∷ rs) = elim (Bool-cases (r.id == row.id)) [
  | inl e ↦ rw (e, replace-ids row rs, (eq_iff r.id row.id).0 e) refl
  | inr e ↦ rw (e, replace-ids row rs) refl
]

-- Looking up another id finds what stood there, looking up the row's own finds the row.
find-replace :
    (id : String) (row : WhitelistRequest) (rs : List WhitelistRequest)
    → find id (replace row.id row rs)
      ≡ (if row.id == id then Option.map (λ old. row) (find id rs) else find id rs)
unfolding replace
find-replace id row [] = ground arith
find-replace id row (r ∷ rs) = elim (Bool-cases (r.id == row.id)) [
  | inl e ↦
      let same = ap (λ x. x == id) ((eq_iff r.id row.id).0 e) in
      elim (Bool-cases (row.id == id)) [
        | inl f ↦ rw (e, same, f) refl
        | inr f ↦ rw (e, same, f, find-replace id row rs, f) refl
      ]
  | inr e ↦ elim (Bool-cases (r.id == id)) [
    | inl g ↦ elim (Bool-cases (row.id == id)) [
      | inl f ↦ absurd (
          true≢false (
            sym ((eq_iff r.id row.id).1 ((eq_iff r.id id).0 g ∙ sym ((eq_iff row.id id).0 f))) ∙ e))
      | inr f ↦ rw (e, f, g) refl
    ]
    | inr g ↦ rw (e, g) (find-replace id row rs)
  ]
]

-- The answer 200 to a change of status changes the row with that id, and no other: it now has the
-- new status and counts as processed. The rows keep their order and their ids.
pub on_status_changed-mirror :
    (row : WhitelistRequest) (s now : String) (body : Option (List WhitelistRequest))
    (rs : List WhitelistRequest) (p : LandingPage)
    → p.state.requests ≡ some rs
    → (rs' : List WhitelistRequest) × ((on_status_changed row s now
          (fulfilled 200 body)
          p).state.requests
        ≡ some rs')
      × (ids rs' ≡ ids rs)
      × ((id : String)
          → find id rs' ≡ (
              if row.id == id
              then Option.map
                  (λ old. record row {
                    status = s;
                    processed_timestamp =
                        (if row.processed_timestamp == "N/A" then now else row.processed_timestamp);
                    last_updated_timestamp = now;
                  })
                  (find id rs)
              else find id rs))
unfolding on_status_changed handle_change_request_status mocked
on_status_changed-mirror row s now body rs p there =
    simp (there, handle_change_request_status)
      (
        replace row.id (mocked row s now) rs,
        refl,
        replace-ids (mocked row s now) rs,
        λ id. find-replace id (mocked row s now) rs,
      )

-- An answer that is not a success leaves the rows, the stored token and the pushed paths as they
-- are, a 401 that announces the login page among them, and shows one alert unless no response came.
pub on_status_changed-refused :
    (row : WhitelistRequest) (s now : String) (response : Option ℕ) (p : LandingPage)
    → let q = on_status_changed row s now (rejected response) p in
      (q.state ≡ p.state)
      × (q.token ≡ p.token)
      × (q.pushed ≡ p.pushed)
      × (q.pending ≡ p.pending)
      × (length q.alerts ≡ (elim response [ none ↦ 0 | some status ↦ 1 ]) + length p.alerts)
unfolding on_status_changed
on_status_changed-refused row s now none p = (refl, refl, refl, refl, omega arith)
on_status_changed-refused row s now (some status) p = elim (Bool-cases (nat_eq status 500)) [
  | inl a ↦ rw a (refl, refl, refl, refl, omega arith)
  | inr a ↦ elim (Bool-cases (nat_eq status 401)) [
    | inl b ↦ rw (a, b) (refl, refl, refl, refl, omega arith)
    | inr b ↦ rw (a, b) (refl, refl, refl, refl, omega arith)
  ]
]
