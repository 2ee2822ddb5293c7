-- ===== src/Server/Stranded.antt =====
-- Where `HandleCreateRequest` goes wrong: a message that cannot be published, and two calls at once.
use mc_gatekeeper.Prelude.{
  ◌≤◌, String, Bool, true, false, not, ◌&&◌, ◌==◌, none, some, List, [], ◌∷◌, ◌≡◌, refl, sym, ap,
  ◌∙◌, subst, inl, inr, arith, Bool-cases, count_if, eq_iff, eq_refl,
}
use mathlib.Core.Bool.{true≢false}
use mc_gatekeeper.Result.{Result}
use mc_gatekeeper.Types.{Request}
use mc_gatekeeper.Server.{
  Collection, Env, Server, Response, error, has_id, lives_as, message_pending, conflict,
  validate_create_request, create_valid, handle_create_request,
}
use mc_gatekeeper.Server.Laws.{IsCollection}
use mc_gatekeeper.Server.Once.{validate_create_request-none}

abbrev pub stored : Env → Request → Request
stored env new = record new { id = env.new_id; timestamp = env.now1; status = "Pending" }

flip_apart : (a b : String) → (a == b) ≡ false → (b == a) ≡ false
flip_apart a b h = elim (Bool-cases (b == a)) [
  | inr e ↦ e
  | inl e ↦ absurd (true≢false (sym ((eq_iff a b).1 (sym ((eq_iff b a).0 e))) ∙ h))
]

pub count-some :
    (t s : Request → Bool) (db : List Request)
    → ((r : Request) → t r ≡ true → s r ≡ true)
    → count_if t db ≤ count_if s db
count-some t s [] sub = omega arith
count-some t s (r ∷ db) sub = elim (Bool-cases (t r)) [
  | inl e ↦ rw (e, sub r e) (omega (arith, count-some t s db sub))
  | inr e ↦ elim (Bool-cases (s r)) [
    | inl g ↦ rw (e, g) (omega (arith, count-some t s db sub))
    | inr g ↦ rw (e, g) (omega (arith, count-some t s db sub))
  ]
]

-- A live request that is not pending.
abbrev decided_as : String → Request → Bool
decided_as u r = lives_as u r && not (r.status == "Pending")

decided_as-lives : (u : String) (r : Request) → decided_as u r ≡ true → lives_as u r ≡ true
decided_as-lives u r h = elim (Bool-cases (lives_as u r)) [
  | inl e ↦ e
  | inr e ↦ absurd (true≢false (sym (rw e at h)))
]

conflict-pending :
    (u : String) (r : Request)
    → lives_as u r ≡ true
    → decided_as u r ≡ false
    → conflict r ≡ some (error 422 message_pending)
unfolding conflict
conflict-pending u r live d = elim (Bool-cases (r.status == "Pending")) [
  | inl b ↦ rw (ap (λ s. s == "Approved") ((eq_iff r.status "Pending").0 b), b) refl
  | inr b ↦ absurd (true≢false (rw (live, b) at d))
]

module _ (c : Collection) (decrypt : String → Result String) (object_id : String → String)
    (laws : IsCollection c) (hex : (s : String) → object_id (object_id s) ≡ object_id s) where
  -- After an insertion a player who had no live request has one, and it is pending.
  pending_only :
      (env : Env) (new : Request) (db after : List Request)
      → count_if (lives_as new.username) db ≡ 0
      → c.insert_one (stored env new) db ≡ some after
      → (count_if (lives_as new.username) after ≡ 1)
        × (count_if (decided_as new.username) after ≡ 0)
  pending_only env new db after no_live inserted =
      let (_, one) = laws.inserted (stored env new) db after inserted in
      (
        omega (arith, rw (eq_refl new.username) at (one (lives_as new.username)), no_live),
        omega (
          arith,
          rw (eq_refl new.username) at (one (decided_as new.username)),
          no_live,
          count-some (decided_as new.username) (lives_as new.username) db
              (decided_as-lives new.username),
        ),
      )

  refused_again :
      (env : Env) (new : Request) (q : Server)
      → env.can_read_body ≡ true
      → env.can_find ≡ true
      → count_if (lives_as new.username) q.db ≡ 1
      → count_if (decided_as new.username) q.db ≡ 0
      → handle_create_request c decrypt object_id env (some new) q ≡ (q, error 422 message_pending)
  unfolding handle_create_request validate_create_request
  refused_again env new q can_read can_find one none_decided =
      go (c.find (lives_as new.username) q.db) refl
    where
      go :
          (found : List Request)
          → c.find (lives_as new.username) q.db ≡ found
          → handle_create_request c decrypt object_id env (some new) q
            ≡ (q, error 422 message_pending)
      go [] k = absurd (omega (arith, laws.find_complete (lives_as new.username) q.db k))
      go (r ∷ rest) k = elim (Bool-cases (decided_as new.username r)) [
        | inl d ↦ absurd (
            omega (
              arith,
              laws.found_in (lives_as new.username) q.db r rest k (decided_as new.username) d,
            ))
        | inr d ↦
            let live = laws.find_sound (lives_as new.username) q.db r rest k in
            simp
              (
                can_read,
                can_find,
                k,
                conflict-pending new.username r live d,
                handle_create_request,
                validate_create_request,
              )
              refl
      ]

  unpublished :
      (env : Env) (new : Request) (p : Server) (after : List Request)
      → env.can_read_body ≡ true
      → env.can_write ≡ true
      → env.can_publish ≡ false
      → validate_create_request c decrypt object_id env new p ≡ none
      → c.insert_one (stored env new) p.db ≡ some after
      → handle_create_request c decrypt object_id env (some new) p
        ≡ (record p { db = after }, error 500 "Unable to create new request")
  unfolding handle_create_request create_valid
  unpublished env new p after can_read can_write no_publish valid inserted =
      simp (can_read, valid, can_write, inserted, no_publish, handle_create_request, create_valid)
        refl

  -- Where a new request is valid and is stored, but its message cannot be published, the player is
  -- told that it could not be created, no message is published, and any further try that reads its
  -- body and the database is refused, as there is a pending request.
  pub create-stranded :
      (env again : Env) (new : Request) (p : Server) (after : List Request)
      → env.can_read_body ≡ true
      → env.can_write ≡ true
      → env.can_publish ≡ false
      → validate_create_request c decrypt object_id env new p ≡ none
      → c.insert_one (stored env new) p.db ≡ some after
      → again.can_read_body ≡ true
      → again.can_find ≡ true
      → let q = handle_create_request c decrypt object_id env (some new) p in
        (q.1 ≡ error 500 "Unable to create new request")
        × (q.0.published ≡ p.published)
        × (handle_create_request c decrypt object_id again (some new) q.0
            ≡ (q.0, error 422 message_pending))
  create-stranded env again new p after can_read can_write no_publish valid inserted reads finds =
      let first = unpublished env new p after can_read can_write no_publish valid inserted in
      let no_live = validate_create_request-none c decrypt object_id laws hex env new p valid in
      let (one, none_decided) = pending_only env new p.db after no_live inserted in
      (
        ap (λ (q : Server × Response). q.1) first,
        ap (λ (q : Server × Response). q.0.published) first,
        subst
            (λ (s : Server).
              handle_create_request c decrypt object_id again (some new) s
              ≡ (s, error 422 message_pending))
            (sym (ap (λ (q : Server × Response). q.0) first))
            (refused_again again new (record p { db = after }) reads finds one none_decided),
      )

  created_db :
      (env : Env) (new : Request) (p : Server) (after : List Request)
      → env.can_write ≡ true
      → c.insert_one (stored env new) p.db ≡ some after
      → (create_valid c decrypt object_id env new p).0.db ≡ after
  unfolding create_valid
  created_db env new p after can_write inserted = elim (Bool-cases env.can_publish) [
    | inl b ↦ simp (can_write, inserted, b, create_valid) refl
    | inr b ↦ simp (can_write, inserted, b, create_valid) refl
  ]

  both_stored :
      (env env' : Env) (new new' : Request) (db after after' : List Request)
      → new'.username ≡ new.username
      → count_if (lives_as new.username) db ≡ 0
      → count_if (has_id env.new_id) db ≡ 0
      → count_if (has_id env'.new_id) after ≡ 0
      → (env.new_id == env'.new_id) ≡ false
      → c.insert_one (stored env new) db ≡ some after
      → c.insert_one (stored env' new') after ≡ some after'
      → (count_if (lives_as new.username) after' ≡ 2)
        × (count_if (has_id env.new_id) after' ≡ 1)
        × (count_if (has_id env'.new_id) after' ≡ 1)
  both_stored env env' new new' db after after' same no_live free free' apart i i' =
      let (one, _) = pending_only env new db after no_live i in
      let (_, more) = laws.inserted (stored env new) db after i in
      let (_, more') = laws.inserted (stored env' new') after after' i' in
      let mine : count_if (has_id env.new_id) after ≡ 1 =
        omega (arith, rw (eq_refl env.new_id) at (more (has_id env.new_id)), free) in
      let back = flip_apart env.new_id env'.new_id apart in
      (
        omega (arith, one, rw (same, eq_refl new.username) at (more' (lives_as new.username))),
        omega (arith, mine, rw back at (more' (has_id env.new_id))),
        omega (arith, free', rw (eq_refl env'.new_id) at (more' (has_id env'.new_id))),
      )

  -- Two new requests of one player that are both validated before either is stored are both let
  -- through and stored, where the database takes writes and their ids are new and different: the
  -- player then has two live requests.
  pub create_valid-twice :
      (env env' : Env) (new new' : Request) (p : Server)
      → new'.username ≡ new.username
      → validate_create_request c decrypt object_id env new p ≡ none
      → validate_create_request c decrypt object_id env' new' p ≡ none
      → env.can_write ≡ true
      → env'.can_write ≡ true
      → count_if (has_id env.new_id) p.db ≡ 0
      → count_if (has_id env'.new_id) p.db ≡ 0
      → (env.new_id == env'.new_id) ≡ false
      → let q = (create_valid c decrypt object_id env new p).0 in
        let q' = (create_valid c decrypt object_id env' new' q).0 in
        (count_if (lives_as new.username) q'.db ≡ 2)
        × (count_if (has_id env.new_id) q'.db ≡ 1)
        × (count_if (has_id env'.new_id) q'.db ≡ 1)
  create_valid-twice env env' new new' p same valid valid' w w' free free' apart =
      let no_live = validate_create_request-none c decrypt object_id laws hex env new p valid in
      let (after, i) = laws.insertable (stored env new) p.db free in
      let (_, more) = laws.inserted (stored env new) p.db after i in
      let still : count_if (has_id env'.new_id) after ≡ 0 =
        omega (arith, rw apart at (more (has_id env'.new_id)), free') in
      let (after', i') = laws.insertable (stored env' new') after still in
      let first = created_db env new p after w i in
      let second =
        created_db env' new' (create_valid c decrypt object_id env new p).0 after' w'
          (ap (λ db. c.insert_one (stored env' new') db) first ∙ i') in
      subst
        (λ db.
          (count_if (lives_as new.username) db ≡ 2)
          × (count_if (has_id env.new_id) db ≡ 1)
          × (count_if (has_id env'.new_id) db ≡ 1))
        (sym second)
        (both_stored env env' new new' p.db after after' same no_live free still apart i i')
