-- ===== src/Login/Captcha.antt =====
-- The logins of the page against the captchas that the server has confirmed.
use mc_gatekeeper.Prelude.{
  ℕ, ◌≤◌, ◌+◌, ltb, String, Bool, true, false, ◌&&◌, nat_eq, none, some, List, [], ◌∷◌, take_at,
  ◌≡◌, refl, arith, count_if, count_if-take_at, count_if-append, inl, inr, Bool-cases, Option-cases,
  if◌then◌else◌, ◌▷◌,
}
use mc_gatekeeper.Js.{Value, get, truthy, Outcome, fulfilled, rejected}
use mc_gatekeeper.Page.{mount, settle}
use mc_gatekeeper.Login.{
  initial, Call, verify, log_in, LoginPage, username, password, on_change, login, on_resolved,
  on_verify_settled, on_logged_in, Handler, change, submit, dispatch, resume, Event, fire, solved,
  answer, step, run,
}

abbrev pub is_login : Call → Bool
is_login (verify response) = false
is_login (log_in name secret) = true

abbrev pub succeeds : Value → Bool
succeeds body = elim (get body "success") [ none ↦ false | some v ↦ truthy v ]

-- A captcha that the server has confirmed, and a login that was answered.
abbrev pub is_passed : Call × Outcome → Bool
is_passed (verify response, fulfilled status body) = nat_eq status 200 && succeeds body
is_passed _ = false

abbrev pub is_answered : Call × Outcome → Bool
is_answered c = is_login c.0

-- The logins in flight and those answered.
abbrev pub logins : LoginPage → ℕ
logins p = count_if is_login p.pending + count_if is_answered p.settled

record IsGuarded (p : LoginPage) : Type 0 where
  bound : logins p ≤ count_if is_passed p.settled

-- The page changes, the calls do not.
record SameCalls (p q : LoginPage) : Type 0 where
  pending : q.pending ≡ p.pending
  settled : q.settled ≡ p.settled

move : {p q : LoginPage} → SameCalls p q → IsGuarded p → IsGuarded q
move s i = record { bound = rw (s.pending, s.settled) i.bound }

on_logged_in-SameCalls : (o : Outcome) (p : LoginPage) → SameCalls p (on_logged_in o p)
unfolding on_logged_in
on_logged_in-SameCalls (rejected none) p = record { pending = refl; settled = refl }
on_logged_in-SameCalls (rejected (some status)) p = elim (Bool-cases (nat_eq status 401)) [
  | inl a ↦ rw a (record { pending = refl; settled = refl })
  | inr a ↦ rw a (record { pending = refl; settled = refl })
]
on_logged_in-SameCalls (fulfilled status body) p = elim (Bool-cases (nat_eq status 200)) [
  | inr other ↦ rw other (record { pending = refl; settled = refl })
  | inl ok ↦ elim (Option-cases (get body "token")) [
    | inl gone ↦ rw (ok, gone) (record { pending = refl; settled = refl })
    | inr (v, found) ↦ rw (ok, found) (record { pending = refl; settled = refl })
  ]
]

if-IsGuarded :
    (b : Bool) {p q : LoginPage} → IsGuarded p → IsGuarded q → IsGuarded (if b then p else q)
if-IsGuarded true i j = i
if-IsGuarded false i j = j

dispatch-SameCalls : (h : Handler) (v : String) (p : LoginPage) → SameCalls p (dispatch h v p)
unfolding dispatch on_change login
dispatch-SameCalls (change username) v p = record { pending = refl; settled = refl }
dispatch-SameCalls (change password) v p = record { pending = refl; settled = refl }
dispatch-SameCalls submit v p = record { pending = refl; settled = refl }

-- A verification is answered: a login starts only with a success.
on_verify_settled-IsGuarded :
    (response : Value) (o : Outcome) (rest : List Call) (p : LoginPage)
    → count_if is_login rest + count_if is_answered p.settled ≤ count_if is_passed p.settled
    → IsGuarded (on_verify_settled o (p ▷ settle (verify response) o rest))
unfolding on_verify_settled
on_verify_settled-IsGuarded response (rejected r) rest p h = record { bound = omega (arith, h) }
on_verify_settled-IsGuarded response (fulfilled status body) rest p h =
    elim (Bool-cases (nat_eq status 200)) [
      | inr other ↦ rw other (record { bound = rw other (omega (arith, h)) })
      | inl ok ↦ elim (Option-cases (get body "success")) [
        | inl gone ↦ rw (ok, gone) (record { bound = rw (ok, gone) (omega (arith, h)) })
        | inr (v, found) ↦ elim (Bool-cases (truthy v)) [
          | inr fails ↦
              rw (ok, found, fails) (record { bound = rw (ok, found, fails) (omega (arith, h)) })
          | inl holds ↦
              rw (ok, found, holds)
                (record {
                  bound =
                      rw (ok, found, holds)
                        (omega (
                          arith,
                          h,
                          count_if-append is_login rest
                              (log_in p.state.username p.state.password ∷ []),
                        ));
                })
        ]
      ]
    ]

resume-IsGuarded :
    (i : ℕ) (c : Call) (o : Outcome) (rest : List Call) (p : LoginPage)
    → take_at i p.pending ≡ some (c, rest)
    → IsGuarded p
    → IsGuarded (resume c o (p ▷ settle c o rest))
unfolding resume
resume-IsGuarded i (verify response) o rest p found g =
    on_verify_settled-IsGuarded response o rest p
      (omega (arith, g.bound, count_if-take_at is_login i p.pending found))
resume-IsGuarded i (log_in name secret) o rest p found g =
    move (on_logged_in-SameCalls o _)
      (record { bound = omega (arith, g.bound, count_if-take_at is_login i p.pending found) })

module _ (t : String → String) where
  step-IsGuarded : (e : Event) (p : LoginPage) → IsGuarded p → IsGuarded (step t e p)
  unfolding step on_resolved
  step-IsGuarded (fire h v) p g = if-IsGuarded _ (move (dispatch-SameCalls h v p) g) g
  step-IsGuarded (solved response) p g = elim (Bool-cases (ltb 0 p.challenges)) [
    | inl open_one ↦ rw open_one (record {
      bound = omega (arith, g.bound, count_if-append is_login p.pending (verify response ∷ []));
    })
    | inr none_open ↦ rw none_open g
  ]
  step-IsGuarded (answer i o) p g = elim (Option-cases (take_at i p.pending)) [
    | inl gone ↦ simp (gone, step) g
    | inr ((c, rest), found) ↦ rw (found, step) (resume-IsGuarded i c o rest p found g)
  ]

  run-IsGuarded : (es : List Event) (p : LoginPage) → IsGuarded p → IsGuarded (run t es p)
  unfolding run
  run-IsGuarded [] p g = g
  run-IsGuarded (e ∷ es) p g = run-IsGuarded es (step t e p) (step-IsGuarded e p g)

  -- In every run of the login page there are at most as many logins, those in flight and those
  -- answered together, as captchas that the server has confirmed.
  pub run-logins_bound :
      (es : List Event)
      → let p = run t es (mount initial) in logins p ≤ count_if is_passed p.settled
  run-logins_bound es = (run-IsGuarded es (mount initial) (record { bound = omega arith })).bound
