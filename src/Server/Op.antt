-- ===== src/Server/Op.antt =====
-- `HandlePatchRequestByID`, the link in an op's mail, and the internal patch: what they need before
-- they change a stored request.
use mc_gatekeeper.Prelude.{
  ℕ, ◌≤◌, String, true, ◌==◌, Option, none, some, List, [], ◌∷◌, ◌≡◌, ◌⊎◌, refl, sym, ap, ◌∙◌, inl,
  inr, Bool-cases, count_if, eq_iff,
}
use mc_gatekeeper.Js.{undefined, null, nan, bool, num, str, arr, obj}
use mc_gatekeeper.Result.{Result, ok, ok≢err, ok≢panics, ok-injective, Result-cases}
use mc_gatekeeper.Types.{Request}
use mc_gatekeeper.Server.{
  Setting, Changes, value, time, text_of, find_setting, Collection, Env, Server, has_id, is_in,
  Fetched, fetched, refused, crashes, get_request_by_encrypted_id, verify_matching_tokens,
  patch_verified, handle_patch_request_by_id,
}
use mc_gatekeeper.Server.Laws.{IsReplaced, IsCollection}
use mc_gatekeeper.Server.Change.{IsPatched, update_request_by_id-db, find-admin, find-requested}

abbrev pub IsUnique : Server → Type 0
IsUnique p = (id : String) → count_if (has_id id) p.db ≤ 1

fetched-injective : {r s : Request} → fetched r ≡ fetched s → r ≡ s
fetched-injective {r} e = ap (request_or r) e
  where
    request_or : Request → Fetched → Request
    request_or d (fetched x) = x
    request_or d (refused status message) = d
    request_or d crashes = d

Fetched-cases :
    (f : Fetched)
    → ((r : Request) × (f ≡ fetched r))
      ⊎ ((status : ℕ) × (message : String) × (f ≡ refused status message))
      ⊎ (f ≡ crashes)
Fetched-cases (fetched r) = inl (r, refl)
Fetched-cases (refused status message) = inr (inl (status, message, refl))
Fetched-cases crashes = inr (inr refl)

module _ (c : Collection) (decrypt : String → Result String) (object_id : String → String)
    (laws : IsCollection c) (hex : (s : String) → object_id (object_id s) ≡ object_id s) where
  -- The request that a token names.
  abbrev pub IsNamed : String → Request → Server → Type 0
  IsNamed token r p =
      (id : String) × (rest : List Request) × (decrypt token ≡ ok id)
      × (c.find (has_id (object_id id)) p.db ≡ r ∷ rest)

  named :
      (env : Env) (token : String) (p : Server) (r : Request)
      → get_request_by_encrypted_id c decrypt object_id env token p ≡ fetched r
      → IsNamed token r p
  unfolding get_request_by_encrypted_id
  named env token p r h = elim (Result-cases (decrypt token)) [
    | inr (inl (m, e)) ↦ cc (simp (e, get_request_by_encrypted_id) at h)
    | inr (inr e) ↦ cc (simp (e, get_request_by_encrypted_id) at h)
    | inl (id, e) ↦ elim (Bool-cases env.can_find) [
      | inr f ↦ cc (simp (e, f, get_request_by_encrypted_id) at h)
      | inl f ↦ go id e f (c.find (has_id (object_id id)) p.db) refl
    ]
  ]
    where
      go :
          (id : String)
          → decrypt token ≡ ok id
          → env.can_find ≡ true
          → (found : List Request) → c.find (has_id (object_id id)) p.db ≡ found
          → IsNamed token r p
      go id e f [] k = cc (simp (e, f, k, get_request_by_encrypted_id) at h)
      go id e f (s ∷ rest) k = (
        id,
        rest,
        e,
        k
            ∙ ap (λ x. x ∷ rest)
                (fetched-injective (simp (e, f, k, get_request_by_encrypted_id) at h)),
      )

  pub verified :
      (env : Env) (token adm : String) (p : Server) (r : Request) (op : String)
      → verify_matching_tokens c decrypt object_id env token adm p ≡ ok (r, op)
      → IsNamed token r p × (decrypt adm ≡ ok op) × (is_in op r.assignees ≡ true)
  unfolding verify_matching_tokens
  verified env token adm p r op h = elim (Result-cases (decrypt adm)) [
    | inr (inl (m, e)) ↦ absurd (ok≢err (sym (rw (e, verify_matching_tokens) at h)))
    | inr (inr e) ↦ absurd (ok≢panics (sym (rw (e, verify_matching_tokens) at h)))
    | inl (o, e) ↦
        elim (Fetched-cases (get_request_by_encrypted_id c decrypt object_id env token p)) [
          | inr (inl (status, m, g)) ↦
              absurd (ok≢err (sym (rw (e, g, verify_matching_tokens) at h)))
          | inr (inr g) ↦ absurd (ok≢panics (sym (rw (e, g, verify_matching_tokens) at h)))
          | inl (s, g) ↦ elim (Bool-cases (is_in o s.assignees)) [
            | inr i ↦ absurd (ok≢err (sym (rw (e, g, i, verify_matching_tokens) at h)))
            | inl i ↦
                let same = ok-injective (rw (e, g, i, verify_matching_tokens) at h) in
                let who = ap (λ x. x.1) same in
                let which = ap (λ x. x.0) same in
                (
                  named env token p r (g ∙ ap fetched which),
                  e ∙ ap ok who,
                  ap (λ (x : Request × String). is_in x.1 x.0.assignees) (sym same) ∙ i,
                )
          ]
        ]
  ]

  -- A document is updated under its own id.
  pub found_again :
      (s : String) (p : Server) (r : Request) (rest : List Request)
      → c.find (has_id (object_id s)) p.db ≡ r ∷ rest
      → object_id r.id ≡ object_id s
  found_again s p r rest found =
      ap object_id
        ((eq_iff r.id (object_id s)).0 (laws.find_sound (has_id (object_id s)) p.db r rest found))
      ∙ hex s

  -- What a link needs to change a request: its two tokens are those of a stored pending request and
  -- of an op that it is assigned to, and then the op is recorded as its admin.
  pub record IsDecided (env : Env) (token : String) (link : Option String) (body : Option Changes)
      (p q : Server) : Type 0 where
    pub adm : String
    pub op : String
    pub old : Request
    pub given : link ≡ some adm
    pub is_op : decrypt adm ≡ ok op
    pub is_named : IsNamed token old p
    pub is_assigned : is_in op old.assignees ≡ true
    pub is_pending : old.status ≡ "Pending"
    pub patched : IsPatched c decrypt object_id laws old op body env p q

  patched_by :
      (env : Env) (body : Option Changes) (p : Server) (old : Request) (op id : String)
      (rest : List Request)
      → IsUnique p
      → c.find (has_id (object_id id)) p.db ≡ old ∷ rest
      → let q = (patch_verified c decrypt object_id env old op body p).0 in
        (q ≡ p)
        ⊎ ((old.status ≡ "Pending") × IsPatched c decrypt object_id laws old op body env p q)
  unfolding patch_verified
  patched_by env body p old op id rest unique found = elim (Bool-cases (old.status == "Pending")) [
    | inr e ↦ simp (e, patch_verified) (inl refl)
    | inl e ↦ elim (Bool-cases env.can_read_body) [
      | inr b ↦ simp (e, b, patch_verified) (inl refl)
      | inl b ↦
          elim (update_request_by_id-db c decrypt object_id laws env old.id body op p old rest
            (unique (object_id old.id)) (again ∙ found)) [
              | inl same ↦ simp (e, b, patch_verified) (inl same)
              | inr done ↦
                  simp (e, b, patch_verified) (inr ((eq_iff old.status "Pending").0 e, done))
            ]
    ]
  ]
    where
      again : c.find (has_id (object_id old.id)) p.db ≡ c.find (has_id (object_id id)) p.db
      again = ap (λ i. c.find (has_id i) p.db) (found_again id p old rest found)

  pub handle_patch-db :
      (env : Env) (token : String) (link : Option String) (body : Option Changes) (p : Server)
      → IsUnique p
      → let q = (handle_patch_request_by_id c decrypt object_id env token link body p).0 in
        (q ≡ p) ⊎ IsDecided env token link body p q
  unfolding handle_patch_request_by_id
  handle_patch-db env token none body p unique = inl refl
  handle_patch-db env token (some adm) body p unique = elim (Bool-cases (adm == "")) [
    | inl e ↦ rw e (inl refl)
    | inr e ↦ elim (Result-cases (verify_matching_tokens c decrypt object_id env token adm p)) [
      | inr (inl (m, v)) ↦ rw (e, v) (inl refl)
      | inr (inr v) ↦ rw (e, v) (inl refl)
      | inl ((old, op), v) ↦
          let (is_named, is_op, is_assigned) = verified env token adm p old op v in
          let (id, rest, d, found) = is_named in
          elim (patched_by env body p old op id rest unique found) [
            | inl same ↦ rw (e, v) (inl same)
            | inr (is_pending, patched) ↦
                rw (e, v)
                  (inr (record {
                    adm = adm;
                    op = op;
                    old = old;
                    given = refl;
                    is_op = is_op;
                    is_named = is_named;
                    is_assigned = is_assigned;
                    is_pending = is_pending;
                    patched = patched;
                  }))
          ]
    ]
  ]

  -- The body asks for no status, or for the one that the request then has.
  abbrev pub HasAsked : Changes → Request → Type 0
  HasAsked requested new =
      (text_of (find_setting "status" requested) ≡ none)
      ⊎ (text_of (find_setting "status" requested) ≡ some new.status)

  pub asked_status :
      (new : Request) (o : Option Setting)
      → ((s : String) → o ≡ some (value (str s)) → new.status ≡ s)
      → (text_of o ≡ none) ⊎ (text_of o ≡ some new.status)
  asked_status new (some (value (str s))) set = inr (ap some (sym (set s refl)))
  asked_status new none set = inl refl
  asked_status new (some (time n)) set = inl refl
  asked_status new (some (value undefined)) set = inl refl
  asked_status new (some (value null)) set = inl refl
  asked_status new (some (value nan)) set = inl refl
  asked_status new (some (value (bool b))) set = inl refl
  asked_status new (some (value (num n))) set = inl refl
  asked_status new (some (value (arr a))) set = inl refl
  asked_status new (some (value (obj a))) set = inl refl

  -- One pending request that the first token names is replaced, for an op that the second names and
  -- that it is assigned to.
  abbrev pub IsAuthorized : String → Option String → Option Changes → Server → Server → Type 0
  IsAuthorized token link body p q =
      (adm : String) × (op : String) × (old : Request) × (new : Request) × (requested : Changes)
      × (link ≡ some adm)
      × (decrypt adm ≡ ok op)
      × IsNamed token old p
      × (is_in op old.assignees ≡ true)
      × (old.status ≡ "Pending")
      × (body ≡ some requested)
      × IsReplaced old new p.db q.db
      × (new.id ≡ old.id)
      × (new.admin ≡ op)
      × HasAsked requested new

  -- Where the ids are different, a link leaves the server as it is, or its first token names a
  -- stored pending request and its second an op that this is assigned to; then this request alone
  -- is replaced, under its id, the op is its admin, and a text that the body has for the status is
  -- its status.
  pub handle_patch-authorized :
      (env : Env) (token : String) (link : Option String) (body : Option Changes) (p : Server)
      → IsUnique p
      → let q = (handle_patch_request_by_id c decrypt object_id env token link body p).0 in
        (q ≡ p) ⊎ IsAuthorized token link body p q
  handle_patch-authorized env token link body p unique =
      elim (handle_patch-db env token link body p unique) [
        | inl same ↦ inl same
        | inr d ↦
            let (requested, new, asked, set, one) = d.patched in
            let kept = find-requested "status" env d.op requested refl refl refl in
            inr (
              d.adm,
              d.op,
              d.old,
              new,
              requested,
              d.given,
              d.is_op,
              d.is_named,
              d.is_assigned,
              d.is_pending,
              asked,
              one,
              set.id_kept,
              set.admin_set d.op (find-admin env d.op requested),
              asked_status new (find_setting "status" requested)
                  (λ s h. set.status_set s (kept ∙ h)),
            )
      ]
