-- ===== src/Contract/Create.antt =====
-- A new request, from the server's answer to what the form shows: `HandleCreateRequest` and
-- app/src/components/Application.js.
use mc_gatekeeper.Prelude.{
  ℕ, ◌≤◌, ◌&&◌, arith, count_if, String, Bool, true, false, ◌==◌, nat_eq, Option, none, some, List,
  [], ◌∷◌, ◌++◌, ◌≡◌, refl, sym, ap, ◌∙◌, inl, inr, Bool-cases, Option-cases,
}
use mathlib.Core.Bool.{true≢false}
use mathlib.Core.Option.{some-injective, some-ne-none}
use mc_gatekeeper.Js.{Value, Outcome, fulfilled, rejected}
use mc_gatekeeper.Types.{Request}
use mc_gatekeeper.Result.{Result}
use mc_gatekeeper.Server.{
  Collection, Env, Server, Response, created, error, conflict, get_requests, is_live, lives_as,
  validate_create_request, create_valid, handle_create_request,
}
use mc_gatekeeper.Server.Laws.{IsCollection}
use mc_gatekeeper.Server.Once.{validate_create_request-none}
use mc_gatekeeper.Server.Stranded.{count-some}
use mc_gatekeeper.Application.{AppPage, on_created}

-- How the promise settles for an answer of `HandleCreateRequest`.
pub data Settles : Response → Outcome → Type 0 where
  resolves : (id : String) (body : Value) → Settles (created id) (fulfilled 201 body)
  rejects :
      (status : ℕ) (message : String)
      → 300 ≤ status
      → Settles (error status message) (rejected (some status))

module _ (t : String → String) where
  -- A refusal leaves `success` as it was.
  refusal :
      (status : ℕ) (p : AppPage)
      → (on_created t (rejected (some status)) p).state.success ≡ p.state.success
  unfolding on_created
  refusal status p = elim (Bool-cases (nat_eq status 422)) [
    | inl a ↦ rw a refl
    | inr a ↦ elim (Bool-cases (nat_eq status 409)) [
      | inl b ↦ rw (a, b) refl
      | inr b ↦ elim (Bool-cases (nat_eq status 403)) [
        | inl c ↦ rw (a, b, c) refl
        | inr c ↦ elim (Bool-cases (nat_eq status 500)) [
          | inl d ↦ rw (a, b, c, d) refl
          | inr d ↦ rw (a, b, c, d) refl
        ]
      ]
    ]
  ]

  success-resolves :
      (r : Response) (o : Outcome) (p : AppPage)
      → Settles r o
      → p.state.success ≡ false
      → (on_created t o p).state.success ≡ true
      → (id : String) × (r ≡ created id)
  success-resolves _ _ p (resolves id body) fresh shown = (id, refl)
  success-resolves _ _ p (rejects status message high) fresh shown =
      absurd (true≢false (sym shown ∙ refusal status p ∙ fresh))

module _ (c : Collection) (decrypt : String → Result String) (object_id : String → String)
    (laws : IsCollection c) (hex : (s : String) → object_id (object_id s) ≡ object_id s) where
  was_created : Response → Bool
  was_created (created id) = true
  was_created _ = false

  conflict-refuses :
      (found : Request) (r : Response) → conflict found ≡ some r → was_created r ≡ false
  unfolding conflict was_created
  conflict-refuses found r e = elim (Bool-cases (found.status == "Approved")) [
    | inl a ↦ ap was_created (sym (some-injective _ _ (simp (a, conflict) at e)))
    | inr a ↦ elim (Bool-cases (found.status == "Pending")) [
      | inl b ↦ ap was_created (sym (some-injective _ _ (simp (a, b, conflict) at e)))
      | inr b ↦ elim (Bool-cases (found.status == "Banned")) [
        | inl d ↦ ap was_created (sym (some-injective _ _ (simp (a, b, d, conflict) at e)))
        | inr d ↦ absurd (some-ne-none _ (sym (simp (a, b, d, conflict) at e)))
      ]
    ]
  ]

  validate-refuses :
      (env : Env) (new : Request) (p : Server) (r : Response)
      → validate_create_request c decrypt object_id env new p ≡ some r
      → was_created r ≡ false
  unfolding validate_create_request was_created
  validate-refuses env new p r e =
      elim (Option-cases (get_requests c decrypt object_id env (lives_as new.username) p)) [
        | inl n ↦ ap was_created (sym (some-injective _ _ (simp (n, validate_create_request) at e)))
        | inr (found, n) ↦ go found n
      ]
    where
      go :
          (found : List Request)
          → get_requests c decrypt object_id env (lives_as new.username) p ≡ some found
          → was_created r ≡ false
      go [] n = absurd (some-ne-none _ (sym (simp (n, validate_create_request) at e)))
      go (first ∷ rest) n = conflict-refuses first r (simp (n, validate_create_request) at e)

  -- How many requests of a player have a status.
  abbrev pub with_status : String → String → Server → ℕ
  with_status username status p =
      count_if (λ (r : Request). (r.username == username) && (r.status == status)) p.db

  -- The new request has been stored as pending and published, where its player had no pending, no
  -- approved and no banned one.
  abbrev pub IsCreated : Env → Option Request → Server → Server → Type 0
  IsCreated env body p q =
      (new : Request) × (db : List Request) × (body ≡ some new)
      × (with_status new.username "Pending" p ≡ 0)
      × (with_status new.username "Approved" p ≡ 0)
      × (with_status new.username "Banned" p ≡ 0)
      × (c.insert_one (record new { id = env.new_id; timestamp = env.now1; status = "Pending" })
            p.db
          ≡ some db)
      × (q ≡ record {
        db = db;
        published = p.published ++ (record new { id = env.new_id; status = "Pending" }) ∷ [];
      })

  -- A status that counts as live.
  none_with :
      (u status : String) (p : Server)
      → ((r : Request) → (r.status == status) ≡ true → is_live r ≡ true)
      → count_if (lives_as u) p.db ≡ 0
      → with_status u status p ≡ 0
  none_with u status p live no_live =
      let less =
        count-some (λ (r : Request). (r.username == u) && (r.status == status)) (lives_as u) p.db
          (λ r both. elim (Bool-cases (r.username == u)) [
            | inr e ↦ absurd (true≢false (sym (rw e at both)))
            | inl e ↦ rw (e, live r (rw e at both)) refl
          ]) in
      omega (arith, less, no_live)

  create_valid-IsCreated :
      (env : Env) (new : Request) (p : Server)
      → validate_create_request c decrypt object_id env new p ≡ none
      → was_created (create_valid c decrypt object_id env new p).1 ≡ true
      → IsCreated env (some new) p (create_valid c decrypt object_id env new p).0
  unfolding create_valid was_created
  create_valid-IsCreated env new p valid h =
      let no_live = validate_create_request-none c decrypt object_id laws hex env new p valid in
      let pending = none_with new.username "Pending" p (λ r e. rw e refl) no_live in
      let approved = none_with new.username "Approved" p (λ r e. ground arith) no_live in
      let banned = none_with new.username "Banned" p (λ r e. ground arith) no_live in
      elim (Bool-cases env.can_write) [
        | inr w ↦ absurd (true≢false (sym (simp (w, create_valid) at h)))
        | inl w ↦
            elim (Option-cases (
              c.insert_one
                (record new { id = env.new_id; timestamp = env.now1; status = "Pending" }) p.db)) [
                  | inl i ↦ absurd (true≢false (sym (simp (w, i, create_valid) at h)))
                  | inr (db, i) ↦ elim (Bool-cases env.can_publish) [
                    | inr u ↦ absurd (true≢false (sym (simp (w, i, u, create_valid) at h)))
                    | inl u ↦ (
                      new,
                      db,
                      refl,
                      pending,
                      approved,
                      banned,
                      i,
                      simp (w, i, u, create_valid) refl,
                    )
                  ]
                ]
      ]

  handle_create_request-IsCreated :
      (env : Env) (body : Option Request) (p : Server)
      → was_created (handle_create_request c decrypt object_id env body p).1 ≡ true
      → IsCreated env body p (handle_create_request c decrypt object_id env body p).0
  unfolding handle_create_request was_created
  handle_create_request-IsCreated env none p h = elim (Bool-cases env.can_read_body) [
    | inr n ↦ absurd (true≢false (sym (simp (n, handle_create_request) at h)))
    | inl n ↦ absurd (true≢false (sym (simp (n, handle_create_request) at h)))
  ]
  handle_create_request-IsCreated env (some new) p h = elim (Bool-cases env.can_read_body) [
    | inr n ↦ absurd (true≢false (sym (simp (n, handle_create_request) at h)))
    | inl n ↦ elim (Option-cases (validate_create_request c decrypt object_id env new p)) [
      | inr (r, v) ↦ absurd (
          true≢false
            (sym (simp (n, v, handle_create_request) at h) ∙ validate-refuses env new p r v))
      | inl v ↦
          simp (n, v, handle_create_request)
            (create_valid-IsCreated env new p v (simp (n, v, handle_create_request) at h))
    ]
  ]

  -- Where the form, which showed no success, shows one for the server's answer, the new request has
  -- been stored as pending and its message published, and its player had no request that is pending,
  -- approved or banned.
  pub on_created-handle_create_request :
      (t : String → String) (env : Env) (body : Option Request) (p : Server) (o : Outcome)
      (form : AppPage)
      → Settles (handle_create_request c decrypt object_id env body p).1 o
      → form.state.success ≡ false
      → (on_created t o form).state.success ≡ true
      → IsCreated env body p (handle_create_request c decrypt object_id env body p).0
  unfolding was_created
  on_created-handle_create_request t env body p o form settled fresh shown =
      let (id, answer) = success-resolves t _ o form settled fresh shown in
      handle_create_request-IsCreated env body p (ap was_created answer)
