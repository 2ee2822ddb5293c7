-- ===== src/Server/Sound.antt =====
-- The state of the stored requests that the handlers keep, and that the patches keep it.
use mc_gatekeeper.Prelude.{
  ◌≤◌, String, Bool, true, ◌||◌, ◌==◌, Option, none, some, List, [], ◌∷◌, ◌≡◌, ◌⊎◌, refl, sym, ap,
  ◌∙◌, subst, inl, inr, arith, Bool-cases, count_if,
}
use mathlib.Core.Bool.{true≢false}
use mc_gatekeeper.Js.{str}
use mc_gatekeeper.Result.{Result}
use mc_gatekeeper.Types.{Request}
use mc_gatekeeper.Dashboard.Landing.Transitions.{◌⟶◌, approving, denying, deactivating, banning}
use mc_gatekeeper.Server.{
  Changes, value, find_setting, requested_change, Collection, Env, Server, has_id, is_live,
  lives_as, handle_internal_patch_request_by_id, handle_patch_request_by_id, update_request_by_id,
  Call, create, patch, internal_patch, step,
}
use mc_gatekeeper.Server.Laws.{IsReplaced, IsUpdated, IsCollection}
use mc_gatekeeper.Server.Change.{IsPatched, update_request_by_id-db, find-requested}
use mc_gatekeeper.Server.Op.{handle_patch-db}

-- The ids are different, and no player has two live requests.
pub record IsSound (p : Server) : Type 0 where
  pub ids_once : (id : String) → count_if (has_id id) p.db ≤ 1
  pub lives_once : (username : String) → count_if (lives_as username) p.db ≤ 1

-- A test that the new document passes only if the old did.
keeps :
    (p : Request → Bool) (old new : Request) (before after : List Request)
    → IsReplaced old new before after
    → (p new ≡ true → p old ≡ true)
    → count_if p before ≤ 1
    → count_if p after ≤ 1
keeps p old new before after one fades h = elim (Bool-cases (p new)) [
  | inl e ↦ omega (arith, rw (e, fades e) at (one p))
  | inr e ↦ elim (Bool-cases (p old)) [
    | inl g ↦ omega (arith, rw (e, g) at (one p))
    | inr g ↦ omega (arith, rw (e, g) at (one p))
  ]
]

from_move : (r : Request) {t : String} → r.status ⟶ t → is_live r ≡ true
from_move r m = go r.status m
  where
    go :
        (s : String) {t : String}
        → s ⟶ t
        → (s == "Pending" || s == "Approved" || s == "Banned") ≡ true
    go _ approving = refl
    go _ denying = refl
    go _ deactivating = refl
    go _ banning = refl

lives_as-kept :
    (u : String) (old new : Request)
    → new.username ≡ old.username
    → (is_live new ≡ true → is_live old ≡ true)
    → lives_as u new ≡ true
    → lives_as u old ≡ true
lives_as-kept u old new same fades h = elim (Bool-cases (new.username == u)) [
  | inr e ↦ absurd (true≢false (sym (rw e at h)))
  | inl e ↦ rw (sym same, e) (fades (rw e at h))
]

replaced-IsSound :
    (old new : Request) (p q : Server)
    → IsReplaced old new p.db q.db
    → new.id ≡ old.id
    → new.username ≡ old.username
    → (is_live new ≡ true → is_live old ≡ true)
    → IsSound p
    → IsSound q
replaced-IsSound old new p q one same_id same_name fades s = record {
  ids_once = λ id.
      keeps (has_id id) old new p.db q.db one (λ h. ap (λ i. i == id) (sym same_id) ∙ h)
        (s.ids_once id);
  lives_once = λ u.
      keeps (lives_as u) old new p.db q.db one (lives_as-kept u old new same_name fades)
        (s.lives_once u);
}

-- The player's name is not in the body.
abbrev pub IsPlain : Option Changes → Type 0
IsPlain body =
    (requested : Changes) → body ≡ some requested → find_setting "username" requested ≡ none

module _ (c : Collection) (decrypt : String → Result String) (object_id : String → String)
    (laws : IsCollection c) (hex : (s : String) → object_id (object_id s) ≡ object_id s) where
  abbrev pub TheCall : Type 0
  TheCall = Call c decrypt object_id

  -- An admin asks for no new status, or for one that the table offers.
  abbrev pub IsOffered : String → Option Changes → Server → Type 0
  IsOffered id body p =
      (old : Request) (rest : List Request) (requested : Changes)
      → c.find (has_id (object_id id)) p.db ≡ old ∷ rest
      → body ≡ some requested
      → (find_setting "status" requested ≡ none)
        ⊎ ((s : String) × (find_setting "status" requested ≡ some (value (str s)))
            × (old.status ⟶ s))

  -- The calls of the pages. Those of a link need only leave the name alone.
  pub data IsAllowed (p : Server) : TheCall → Type 0 where
    creating : (env : Env) (body : Option Request) → IsAllowed p (create env body)
    deciding :
        (env : Env) (token : String) (link : Option String) (body : Option Changes)
        → IsPlain body
        → IsAllowed p (patch env token link body)
    managing :
        (env : Env) (id : String) (body : Option Changes)
        → IsPlain body
        → IsOffered id body p
        → IsAllowed p (internal_patch env id body)

  pub data AreAllowed : Server → List TheCall → Type 0 where
    done : (p : Server) → AreAllowed p []
    next_call :
        (p : Server) (call : TheCall) (calls : List TheCall)
        → IsAllowed p call
        → AreAllowed (step c decrypt object_id call p) calls
        → AreAllowed p (call ∷ calls)

  patched-IsSound :
      (env : Env) (old : Request) (admin : String) (body : Option Changes) (p q : Server)
      → IsPlain body
      → ((new : Request) (requested : Changes)
          → body ≡ some requested
          → IsUpdated old new (requested_change env admin requested)
          → is_live new ≡ true
          → is_live old ≡ true)
      → IsPatched c decrypt object_id laws old admin body env p q
      → IsSound p
      → IsSound q
  patched-IsSound env old admin body p q plain fades (requested, new, asked, set, one) s =
      replaced-IsSound old new p q one set.id_kept
        (set.username_kept
          (find-requested "username" env admin requested refl refl refl ∙ plain requested asked))
        (fades new requested asked set) s

  pub link-IsSound :
      (env : Env) (token : String) (link : Option String) (body : Option Changes) (p : Server)
      → IsPlain body
      → IsSound p
      → IsSound (handle_patch_request_by_id c decrypt object_id env token link body p).0
  link-IsSound env token link body p plain s =
      elim (handle_patch-db c decrypt object_id laws hex env token link body p s.ids_once) [
        | inl same ↦ subst IsSound (sym same) s
        | inr d ↦
            let live = ap (λ u. u == "Pending" || u == "Approved" || u == "Banned") d.is_pending in
            patched-IsSound env d.old d.op body p _ plain (λ _ _ _ _ _. live) d.patched s
      ]

  offered-IsSound :
      (env : Env) (id : String) (body : Option Changes) (p : Server) (old : Request)
      (rest : List Request)
      → c.find (has_id (object_id id)) p.db ≡ old ∷ rest
      → IsPlain body
      → IsOffered id body p
      → IsSound p
      → IsSound (update_request_by_id c decrypt object_id env id body "admin" p).0
  offered-IsSound env id body p old rest found plain offered s =
      elim (update_request_by_id-db c decrypt object_id laws env id body "admin" p old rest
        (s.ids_once (object_id id)) found) [
          | inl same ↦ subst IsSound (sym same) s
          | inr patched ↦ patched-IsSound env old "admin" body p _ plain fades patched s
        ]
    where
      fades :
          (new : Request) (requested : Changes)
          → body ≡ some requested
          → IsUpdated old new (requested_change env "admin" requested)
          → is_live new ≡ true
          → is_live old ≡ true
      fades new requested asked set live = elim (offered old rest requested found asked) [
        | inl none_asked ↦
            let kept = find-requested "status" env "admin" requested refl refl refl in
            ap (λ u. u == "Pending" || u == "Approved" || u == "Banned")
              (sym (set.status_kept (kept ∙ none_asked)))
            ∙ live
        | inr (s, is, move) ↦ from_move old move
      ]

  pub internal-IsSound :
      (env : Env) (id : String) (body : Option Changes) (p : Server)
      → IsPlain body
      → IsOffered id body p
      → IsSound p
      → IsSound (handle_internal_patch_request_by_id c decrypt object_id env id body p).0
  unfolding handle_internal_patch_request_by_id
  internal-IsSound env id body p plain offered s = elim (Bool-cases env.can_read_body) [
    | inr b ↦ simp (b, handle_internal_patch_request_by_id) s
    | inl b ↦ elim (Bool-cases env.can_find) [
      | inr f ↦ simp (b, f, handle_internal_patch_request_by_id) s
      | inl f ↦ go b f (c.find (has_id (object_id id)) p.db) refl
    ]
  ]
    where
      go :
          env.can_read_body ≡ true
          → env.can_find ≡ true
          → (found : List Request) → c.find (has_id (object_id id)) p.db ≡ found
          → IsSound (handle_internal_patch_request_by_id c decrypt object_id env id body p).0
      go b f [] k = simp (b, f, k, handle_internal_patch_request_by_id) s
      go b f (old ∷ rest) k =
          simp (b, f, k, handle_internal_patch_request_by_id)
            (offered-IsSound env id body p old rest k plain offered s)
