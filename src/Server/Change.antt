-- ===== src/Server/Change.antt =====
-- What a handler does to the stored requests.
use mc_gatekeeper.Prelude.{
  ◌≤◌, String, false, ◌||◌, ◌==◌, Option, none, some, List, [], ◌∷◌, ◌≡◌, ◌⊎◌, refl, ◌∙◌, inl, inr,
  Bool-cases, Option-cases, count_if, eq_iff, eq_refl,
}
use mc_gatekeeper.Js.{str}
use mc_gatekeeper.Result.{Result}
use mc_gatekeeper.Types.{Request}
use mc_gatekeeper.Server.{
  Setting, value, Changes, find_setting, put, Collection, Env, Server, text_of, stamped_as, stamped,
  requested_change, has_id, write_changes, update_request_by_id,
}
use mc_gatekeeper.Server.Laws.{IsUpdated, IsReplaced, IsCollection}

pub find-put :
    (key : String) (v : Setting) (ch : Changes) → find_setting key (put key v ch) ≡ some v
find-put key v [] = rw (eq_refl key) refl
find-put key v ((name, w) ∷ rest) = elim (Bool-cases (name == key)) [
  | inl e ↦ rw (e, eq_refl key) refl
  | inr e ↦ rw (e, e) (find-put key v rest)
]

pub find-put_other :
    (k key : String) (v : Setting) (ch : Changes)
    → (key == k) ≡ false
    → find_setting k (put key v ch) ≡ find_setting k ch
find-put_other k key v [] h = rw h refl
find-put_other k key v ((name, w) ∷ rest) h = elim (Bool-cases (name == key)) [
  | inl e ↦ let same = (eq_iff name key).0 e in rw (e, h, same, h) refl
  | inr e ↦ elim (Bool-cases (name == k)) [
    | inl g ↦ rw (e, g) refl
    | inr g ↦ rw (e, g) (find-put_other k key v rest h)
  ]
]

-- The times leave the other fields alone.
find-stamped :
    (k : String) (env : Env) (ch : Changes)
    → ("lastUpdatedTimestamp" == k) ≡ false
    → ("processedTimestamp" == k) ≡ false
    → find_setting k (stamped env ch) ≡ find_setting k ch
unfolding stamped
find-stamped k env ch h g = go (text_of (find_setting "status" ch))
  where
    go : (o : Option String) → find_setting k (stamped_as env o ch) ≡ find_setting k ch
    go none = refl
    go (some s) = elim (Bool-cases (s == "Approved" || s == "Denied")) [
      | inl e ↦ rw e (
          find-put_other k "lastUpdatedTimestamp" _ _ h
          ∙ find-put_other k "processedTimestamp" _ ch g)
      | inr e ↦ elim (Bool-cases (s == "Deactivated" || s == "Banned")) [
        | inl d ↦ rw (e, d) (find-put_other k "lastUpdatedTimestamp" _ ch h)
        | inr d ↦ rw (e, d) refl
      ]
    ]

pub find-requested :
    (k : String) (env : Env) (admin : String) (requested : Changes)
    → ("lastUpdatedTimestamp" == k) ≡ false
    → ("processedTimestamp" == k) ≡ false
    → ("admin" == k) ≡ false
    → find_setting k (requested_change env admin requested) ≡ find_setting k requested
find-requested k env admin requested h g a =
    find-stamped k env _ h g ∙ find-put_other k "admin" _ requested a

pub find-admin :
    (env : Env) (admin : String) (requested : Changes)
    → find_setting "admin" (requested_change env admin requested) ≡ some (value (str admin))
find-admin env admin requested = find-stamped "admin" env _ refl refl ∙ find-put "admin" _ requested

module _ (c : Collection) (decrypt : String → Result String) (object_id : String → String)
    (laws : IsCollection c) where
  -- One document is replaced as asked, or none.
  abbrev pub IsPatched : Request → String → Option Changes → Env → Server → Server → Type 0
  IsPatched old admin body env p q =
      (requested : Changes) × (new : Request) × (body ≡ some requested)
      × IsUpdated old new (requested_change env admin requested)
      × IsReplaced old new p.db q.db

  write_changes-db :
      (env : Env) (id : String) (ch : Changes) (p : Server) (old : Request) (rest : List Request)
      → count_if (has_id (object_id id)) p.db ≤ 1
      → c.find (has_id (object_id id)) p.db ≡ old ∷ rest
      → let q = (write_changes c decrypt object_id env id ch p).0 in
        (q ≡ p) ⊎ ((new : Request) × IsUpdated old new ch × IsReplaced old new p.db q.db)
  unfolding write_changes
  write_changes-db env id ch p old rest unique found = elim (Bool-cases env.can_write) [
    | inr e ↦ simp (e, write_changes) (inl refl)
    | inl e ↦ elim (Option-cases (c.find_one_and_update (object_id id) ch p.db)) [
      | inl n ↦ simp (e, n, write_changes) (inl refl)
      | inr ((new, after), u) ↦
          let done = laws.replaced (object_id id) ch p.db after rest old new unique found u in
          elim (Bool-cases env.can_publish) [
            | inl w ↦ simp (e, u, w, write_changes) (inr (new, done.0, done.1))
            | inr w ↦ simp (e, u, w, write_changes) (inr (new, done.0, done.1))
          ]
    ]
  ]

  pub update_request_by_id-db :
      (env : Env) (id : String) (body : Option Changes) (admin : String) (p : Server)
      (old : Request) (rest : List Request)
      → count_if (has_id (object_id id)) p.db ≤ 1
      → c.find (has_id (object_id id)) p.db ≡ old ∷ rest
      → let q = (update_request_by_id c decrypt object_id env id body admin p).0 in
        (q ≡ p) ⊎ IsPatched old admin body env p q
  unfolding update_request_by_id
  update_request_by_id-db env id none admin p old rest unique found = inl refl
  update_request_by_id-db env id (some requested) admin p old rest unique found =
      elim (write_changes-db env id (requested_change env admin requested) p old rest unique
        found) [
          | inl same ↦ inl same
          | inr (new, done, kept) ↦ inr (requested, new, refl, done, kept)
        ]
