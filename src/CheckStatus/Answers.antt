-- ===== src/CheckStatus/Answers.antt =====
-- What the status page has after its one call.
use mc_gatekeeper.Prelude.{
  zero, suc, ap, ◌∙◌, String, true, nat_eq, none, some, List, [], ◌∷◌, take_at, ◌≡◌, ◌⊎◌, refl, inl,
  inr, Bool-cases, Option-cases, if◌then◌else◌,
}
use mc_gatekeeper.Js.{get, Outcome, fulfilled, rejected}
use mc_gatekeeper.CheckStatus.{
  State, initial, get_request_by_encoded_id, StatusPage, on_request, Event, answer, step, run,
  opened,
}

-- The state after an answer to a page that had none.
abbrev pub answered : Outcome → State
answered (rejected response) = record initial { invalid = true }
answered (fulfilled status body) =
    if nat_eq status 200
    then elim (get body "request") [
      | none ↦ record initial { invalid = true }
      | some r ↦ record initial { current_request = r }
    ]
    else initial

-- The page once its call has settled.
abbrev pub done : String → Outcome → StatusPage
done id o = record (opened id) {
  state = answered o;
  pending = [];
  settled = (get_request_by_encoded_id id, o) ∷ [];
}

first_answer : (id : String) (o : Outcome) → step (answer 0 o) (opened id) ≡ done id o
unfolding step on_request take_at
first_answer id (rejected response) = refl
first_answer id (fulfilled status body) = elim (Bool-cases (nat_eq status 200)) [
  | inr other ↦ rw other refl
  | inl ok ↦ elim (Option-cases (get body "request")) [
    | inl gone ↦ rw (ok, gone) refl
    | inr (r, found) ↦ rw (ok, found) refl
  ]
]

run-done : (id : String) (o : Outcome) (es : List Event) → run es (done id o) ≡ done id o
unfolding run step take_at
run-done id o [] = refl
run-done id o (answer i o' ∷ es) = run-done id o es

-- In every run of the status page the call for the link's request is in flight and nothing has
-- changed, or it has settled once and the state is the one that its answer gives: the request of a
-- 200, nothing for another success, and otherwise invalid.
pub run-opened :
    (id : String) (es : List Event)
    → (run es (opened id) ≡ opened id) ⊎ ((o : Outcome) × (run es (opened id) ≡ done id o))
unfolding run step take_at
run-opened id [] = inl refl
run-opened id (answer zero o ∷ es) = inr (o, ap (run es) (first_answer id o) ∙ run-done id o es)
run-opened id (answer (suc i) o ∷ es) = run-opened id es
