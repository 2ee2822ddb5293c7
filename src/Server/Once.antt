-- ===== src/Server/Once.antt =====
-- No player has two live requests: pending, approved or banned.
use mc_gatekeeper.Prelude.{
  ◌+◌, String, Bool, true, ◌==◌, Option, none, some, List, [], ◌∷◌, ◌≡◌, ◌≢◌, refl, sym, ap, ◌∙◌,
  inl, inr, arith, Bool-cases, Option-cases, count_if, eq_iff,
}
use mathlib.Core.Option.{some-ne-none}
use mc_gatekeeper.Result.{Result}
use mc_gatekeeper.Types.{Request}
use mc_gatekeeper.Server.{
  Collection, Env, Server, has_id, is_live, lives_as, conflict, validate_create_request,
  create_valid, handle_create_request, step, run,
}
use mc_gatekeeper.Server.Laws.{bit, IsCollection}
use mc_gatekeeper.Server.Sound.{
  IsSound, TheCall, IsAllowed, creating, deciding, managing, AreAllowed, done, next_call,
  link-IsSound, internal-IsSound,
}

conflict-live : (u : String) (r : Request) → lives_as u r ≡ true → conflict r ≢ none
unfolding conflict
conflict-live u r live h = elim (Bool-cases (r.status == "Approved")) [
  | inl a ↦ some-ne-none _ (rw (a, conflict) at h)
  | inr a ↦ elim (Bool-cases (r.status == "Pending")) [
    | inl b ↦ some-ne-none _ (rw (a, b, conflict) at h)
    | inr b ↦ elim (Bool-cases (r.status == "Banned")) [
      | inl d ↦ some-ne-none _ (rw (a, b, d, conflict) at h)
      | inr d ↦ absurd (ground arith)
    ]
  ]
]

module _ (c : Collection) (decrypt : String → Result String) (object_id : String → String)
    (laws : IsCollection c) (hex : (s : String) → object_id (object_id s) ≡ object_id s) where
  -- Where a new request is let through, its player has none.
  pub validate_create_request-none :
      (env : Env) (new : Request) (p : Server)
      → validate_create_request c decrypt object_id env new p ≡ none
      → count_if (lives_as new.username) p.db ≡ 0
  unfolding validate_create_request
  validate_create_request-none env new p h = elim (Bool-cases env.can_find) [
    | inr f ↦ absurd (some-ne-none _ (simp (f, validate_create_request) at h))
    | inl f ↦ go f (c.find (lives_as new.username) p.db) refl
  ]
    where
      go :
          env.can_find ≡ true
          → (found : List Request) → c.find (lives_as new.username) p.db ≡ found
          → count_if (lives_as new.username) p.db ≡ 0
      go f [] k = laws.find_complete (lives_as new.username) p.db k
      go f (r ∷ rest) k = absurd (
          conflict-live new.username r (laws.find_sound (lives_as new.username) p.db r rest k)
            (simp (f, k, validate_create_request) at h))

  inserted-IsSound :
      (r : Request) (p q : Server)
      → count_if (lives_as r.username) p.db ≡ 0
      → count_if (has_id r.id) p.db ≡ 0
      → ((t : Request → Bool) → count_if t q.db ≡ count_if t p.db + bit (t r))
      → IsSound p
      → IsSound q
  inserted-IsSound r p q no_live no_id one s = record {
    ids_once = λ id. elim (Bool-cases (r.id == id)) [
      | inl e ↦
          let same = (eq_iff r.id id).0 e in
          omega
            (arith, rw e at (one (has_id id)), ap (λ i. count_if (has_id i) p.db) (sym same), no_id)
      | inr e ↦ omega (arith, rw e at (one (has_id id)), s.ids_once id)
    ];
    lives_once = λ u. elim (Bool-cases (r.username == u)) [
      | inl e ↦
          let same = (eq_iff r.username u).0 e in
          let none_yet = ap (λ v. count_if (lives_as v) p.db) (sym same) ∙ no_live in
          elim (Bool-cases (is_live r)) [
            | inl l ↦ omega (arith, rw (e, l) at (one (lives_as u)), none_yet)
            | inr l ↦ omega (arith, rw (e, l) at (one (lives_as u)), none_yet)
          ]
      | inr e ↦ omega (arith, rw e at (one (lives_as u)), s.lives_once u)
    ];
  }

  create_valid-IsSound :
      (env : Env) (new : Request) (p : Server)
      → count_if (lives_as new.username) p.db ≡ 0
      → IsSound p
      → IsSound (create_valid c decrypt object_id env new p).0
  unfolding create_valid
  create_valid-IsSound env new p no_live s = elim (Bool-cases env.can_write) [
    | inr w ↦ simp (w, create_valid) s
    | inl w ↦ elim (Option-cases (c.insert_one stored p.db)) [
      | inl n ↦ simp (w, n, create_valid) s
      | inr (after, i) ↦
          let (no_id, one) = laws.inserted stored p.db after i in
          elim (Bool-cases env.can_publish) [
            | inl b ↦ simp (w, i, b, create_valid) (inserted-IsSound stored p _ no_live no_id one s)
            | inr b ↦ simp (w, i, b, create_valid) (inserted-IsSound stored p _ no_live no_id one s)
          ]
    ]
  ]
    where
      stored : Request
      stored = record new { id = env.new_id; timestamp = env.now1; status = "Pending" }

  create-IsSound :
      (env : Env) (body : Option Request) (p : Server)
      → IsSound p
      → IsSound (handle_create_request c decrypt object_id env body p).0
  unfolding handle_create_request
  create-IsSound env none p s = elim (Bool-cases env.can_read_body) [
    | inl b ↦ simp (b, handle_create_request) s
    | inr b ↦ simp (b, handle_create_request) s
  ]
  create-IsSound env (some new) p s = elim (Bool-cases env.can_read_body) [
    | inr b ↦ simp (b, handle_create_request) s
    | inl b ↦ elim (Option-cases (validate_create_request c decrypt object_id env new p)) [
      | inr (refused, v) ↦ simp (b, v, handle_create_request) s
      | inl v ↦
          simp (b, v, handle_create_request)
            (create_valid-IsSound env new p (validate_create_request-none env new p v) s)
    ]
  ]

  step-IsSound :
      (p : Server) (call : TheCall c decrypt object_id laws hex)
      → IsAllowed c decrypt object_id laws hex p call
      → IsSound p
      → IsSound (step c decrypt object_id call p)
  unfolding step
  step-IsSound p _ (creating env body) s = create-IsSound env body p s
  step-IsSound p _ (deciding env token link body plain) s =
      link-IsSound c decrypt object_id laws hex env token link body p plain s
  step-IsSound p _ (managing env id body plain offered) s =
      internal-IsSound c decrypt object_id laws hex env id body p plain offered s

  -- Where the bodies leave the players' names alone and the admins ask for what the table offers,
  -- the server keeps the ids different and no player has two live requests, whatever is created and
  -- whatever the links ask for.
  pub run-IsSound :
      (calls : List (TheCall c decrypt object_id laws hex)) (p : Server)
      → AreAllowed c decrypt object_id laws hex p calls
      → IsSound p
      → IsSound (run c decrypt object_id calls p)
  unfolding run
  run-IsSound _ _ (done p) s = s
  run-IsSound _ _ (next_call p call calls ok rest) s =
      run-IsSound calls (step c decrypt object_id call p) rest (step-IsSound p call ok s)
