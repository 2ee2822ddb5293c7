-- ===== src/Login/Tokens.antt =====
-- Where the stored token comes from, and where it goes.
use mc_gatekeeper.Prelude.{
  ltb, String, Bool, true, false, nat_eq, none, some, List, [], ◌∷◌, take_at, ◌≡◌, ◌⊎◌, refl, sym,
  inl, inr, Bool-cases, Option-cases, if◌then◌else◌, ◌▷◌, nat_eq→eq, Memᴰ,
}
use mathlib.Core.Bool.{true≢false}
use mc_gatekeeper.Js.{
  Value, undefined, null, nan, bool, num, str, arr, obj, get, truthy, Outcome, fulfilled, rejected,
}
use mc_gatekeeper.Js.Text.{to_text}
use mc_gatekeeper.Page.{mount, settle, stored_token}
use mc_gatekeeper.Dashboard.Landing
use mc_gatekeeper.Dashboard.Landing.Step
use mc_gatekeeper.Login.{
  initial, Call, verify, log_in, LoginPage, username, password, on_change, login, on_resolved,
  on_verify_settled, on_logged_in, Handler, change, submit, dispatch, resume, Event, fire, solved,
  answer, step, run,
}
use Prim.Native.String.{◌++◌}

-- The answer to a login that brought a token.
abbrev pub Brings : Value → Call × Outcome → Type 0
Brings token (log_in name secret, fulfilled status body) =
    (status ≡ 200) × (get body "token" ≡ some token)
Brings token _ = ⊥

-- The token is one that a login has brought.
abbrev pub HasSource : LoginPage → Type 0
HasSource p =
    (p.token ≡ none)
    ⊎ ((token : Value) × (p.token ≡ some token)
        × (c : Call × Outcome) × Memᴰ c p.settled
        × Brings token c)

record IsSourced (p : LoginPage) : Type 0 where
  source : HasSource p

later :
    (p : LoginPage) (c : Call) (o : Outcome) (rest : List Call)
    → IsSourced p
    → IsSourced (p ▷ settle c o rest)
later p c o rest i = elim i.source [
  | inl e ↦ record { source = inl e }
  | inr (v, e, d, m, b) ↦ record { source = inr (v, e, d, Memᴰ.tail m, b) }
]

on_logged_in-IsSourced :
    (name secret : String) (o : Outcome) (rest : List Call) (p : LoginPage)
    → IsSourced p
    → IsSourced (on_logged_in o (p ▷ settle (log_in name secret) o rest))
unfolding on_logged_in
on_logged_in-IsSourced name secret (rejected none) rest p i =
    later p (log_in name secret) (rejected none) rest i
on_logged_in-IsSourced name secret (rejected (some status)) rest p i =
    elim (Bool-cases (nat_eq status 401)) [
      | inl a ↦ rw a (record {
        source = (later p (log_in name secret) (rejected (some status)) rest i).source;
      })
      | inr a ↦ rw a (later p (log_in name secret) (rejected (some status)) rest i)
    ]
on_logged_in-IsSourced name secret (fulfilled status body) rest p i =
    elim (Bool-cases (nat_eq status 200)) [
      | inr other ↦ rw other (later p (log_in name secret) (fulfilled status body) rest i)
      | inl ok ↦ elim (Option-cases (get body "token")) [
        | inl gone ↦ rw (ok, gone) (later p (log_in name secret) (fulfilled status body) rest i)
        | inr (v, found) ↦
            rw (ok, found)
              (record {
                source = inr (
                  v,
                  refl,
                  (log_in name secret, fulfilled status body),
                  Memᴰ.head refl,
                  (nat_eq→eq status 200 ok, found),
                );
              })
      ]
    ]

module _ (t : String → String) where
  on_verify-IsSourced :
      (o : Outcome) (p : LoginPage) → IsSourced p → IsSourced (on_verify_settled o p)
  unfolding on_verify_settled
  on_verify-IsSourced (rejected response) p i = i
  on_verify-IsSourced (fulfilled status body) p i = elim (Bool-cases (nat_eq status 200)) [
    | inr other ↦ rw other i
    | inl ok ↦ elim (Option-cases (get body "success")) [
      | inl gone ↦ rw (ok, gone) i
      | inr (v, found) ↦ elim (Bool-cases (truthy v)) [
        | inl holds ↦ rw (ok, found, holds) (record { source = i.source })
        | inr fails ↦ rw (ok, found, fails) i
      ]
    ]
  ]

  dispatch-IsSourced :
      (h : Handler) (v : String) (p : LoginPage) → IsSourced p → IsSourced (dispatch h v p)
  unfolding dispatch on_change login
  dispatch-IsSourced (change username) v p i = record { source = i.source }
  dispatch-IsSourced (change password) v p i = record { source = i.source }
  dispatch-IsSourced submit v p i = record { source = i.source }

  resume-IsSourced :
      (c : Call) (o : Outcome) (rest : List Call) (p : LoginPage)
      → IsSourced p
      → IsSourced (resume c o (p ▷ settle c o rest))
  unfolding resume
  resume-IsSourced (verify response) o rest p i =
      on_verify-IsSourced o _ (later p (verify response) o rest i)
  resume-IsSourced (log_in name secret) o rest p i = on_logged_in-IsSourced name secret o rest p i

  if-IsSourced :
      (b : Bool) {p q : LoginPage} → IsSourced p → IsSourced q → IsSourced (if b then p else q)
  if-IsSourced true i j = i
  if-IsSourced false i j = j

  step-IsSourced : (e : Event) (p : LoginPage) → IsSourced p → IsSourced (step t e p)
  unfolding step on_resolved
  step-IsSourced (fire h v) p i = if-IsSourced _ (dispatch-IsSourced h v p i) i
  step-IsSourced (solved response) p i =
      if-IsSourced (ltb 0 p.challenges) (record { source = i.source }) i
  step-IsSourced (answer j o) p i = elim (Option-cases (take_at j p.pending)) [
    | inl gone ↦ simp (gone, step) i
    | inr ((c, rest), found) ↦ rw (found, step) (resume-IsSourced c o rest p i)
  ]

  run-IsSourced : (es : List Event) (p : LoginPage) → IsSourced p → IsSourced (run t es p)
  unfolding run
  run-IsSourced [] p i = i
  run-IsSourced (e ∷ es) p i = run-IsSourced es (step t e p) (step-IsSourced e p i)

  -- In every run of the login page in a browser that held no token, the token that it holds, if
  -- any, is the one in the body of a 200 to a login.
  pub run-HasSource : (es : List Event) → HasSource (run t es (mount initial))
  run-HasSource es = (run-IsSourced es (mount initial) (record { source = inl refl })).source

stored_truthy : (v : Value) → truthy v ≡ true → stored_token (some v) ≡ some v
stored_truthy undefined e = absurd (true≢false (sym e))
stored_truthy null e = refl
stored_truthy nan e = refl
stored_truthy (bool b) e = refl
stored_truthy (num n) e = refl
stored_truthy (str s) e = refl
stored_truthy (arr vs) e = refl
stored_truthy (obj fields) e = refl

-- The token of a successful login opens the landing page: it sends the one call for the requests,
-- with the token's value in its header, and does not go back to the login page.
pub on_logged_in-opened :
    (body token v : Value) (p : LoginPage)
    → get body "token" ≡ some token
    → truthy token ≡ true
    → get token "value" ≡ some v
    → let q = on_logged_in (fulfilled 200 body) p in
      let landing = Landing.Step.opened q.token in
      (q.pushed ≡ "/dashboard" ∷ p.pushed)
      × (landing.pending ≡ Landing.get_all_requests ("Bearer " ++ to_text v) ∷ [])
      × (landing.pushed ≡ [])
unfolding on_logged_in Landing.component_did_mount
on_logged_in-opened body token v p brought holds named =
    simp (brought, stored_truthy token holds, holds, named, Landing.component_did_mount)
      (refl, refl, refl)
