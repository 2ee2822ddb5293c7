-- ===== src/Server/Verify.antt =====
-- `HandleVerifyMatchingTokens` beside `HandlePatchRequestByID`, whose checks it repeats.
use mc_gatekeeper.Prelude.{
  String, true, ◌==◌, Option, none, some, List, [], ◌∷◌, ◌++◌, ℕ, arith, ap, sym, ◌∙◌, ◌≡◌, ◌≢◌,
  ◌⊎◌, refl, inl, inr, Bool-cases, Option-cases, eq_iff,
}
use mathlib.Core.Bool.{true≢false}
use mc_gatekeeper.Result.{Result, Result-cases}
use mc_gatekeeper.Types.{Request}
use mc_gatekeeper.Server.{
  Changes, Collection, Env, Server, Response, bare, error, updated, is_in, has_id, find_setting,
  requested_change, write_changes, update_request_by_id, verify_matching_tokens, patch_verified,
  handle_patch_request_by_id,
}
use mc_gatekeeper.Server.Reads.{handle_verify_matching_tokens}
use mc_gatekeeper.Server.Laws.{IsCollection, IsReplaced}
use mc_gatekeeper.Server.Op.{IsUnique, IsNamed, HasAsked, asked_status, found_again, verified}
use mc_gatekeeper.Server.Change.{find-admin, find-requested}

status_of : Response → ℕ
status_of (bare status) = status
status_of _ = 0

bare-refused : bare 400 ≢ bare 200
unfolding status_of
bare-refused h = omega (arith, ap status_of h)

module _ (c : Collection) (decrypt : String → Result String) (object_id : String → String)
    (laws : IsCollection c) (hex : (s : String) → object_id (object_id s) ≡ object_id s) where
  -- The tokens are those of a stored request and of an op that it is assigned to.
  abbrev pub AreMatching : String → Option String → Request → String → Server → Type 0
  AreMatching token link r op p =
      (adm : String) × (link ≡ some adm)
      × (decrypt adm ≡ Result.ok op)
      × IsNamed c decrypt object_id laws hex token r p
      × (is_in op r.assignees ≡ true)

  -- A pending request alone is replaced by one with the op as its admin and the status that was
  -- asked for, which is published and answered, or the database finds nothing to update; any other
  -- request is left, as already fulfilled.
  abbrev pub IsPatchOf : Env → Request → String → Changes → Server → Server × Response → Type 0
  IsPatchOf env r op requested p out =
      ((r.status ≡ "Pending")
        × ((new : Request) × (db : List Request) × (out
              ≡ (record { db = db; published = p.published ++ new ∷ [] }, updated new))
            × IsReplaced r new p.db db
            × (new.id ≡ r.id)
            × (new.admin ≡ op)
            × HasAsked c decrypt object_id laws hex requested new))
      ⊎ ((r.status ≡ "Pending")
          × (c.find_one_and_update (object_id r.id) (requested_change env op requested) p.db ≡ none)
          × (out ≡ (p, error 500 "Unable to update request")))
      ⊎ ((r.status ≢ "Pending") × (out ≡ (p, error 400 "Request is already fulfilled")))

  granted :
      (env : Env) (token op : String) (r : Request) (requested : Changes) (p : Server)
      → IsUnique p
      → env.can_read_body ≡ true
      → env.can_write ≡ true
      → env.can_publish ≡ true
      → IsNamed c decrypt object_id laws hex token r p
      → IsPatchOf env r op requested p
          (patch_verified c decrypt object_id env r op (some requested) p)
  unfolding patch_verified update_request_by_id write_changes
  granted env token op r requested p unique reads writes publishes (id, rest, _, found) =
      elim (Bool-cases (r.status == "Pending")) [
        | inr e ↦
            simp (e, patch_verified)
              (inr (inr (λ h. true≢false (sym ((eq_iff r.status "Pending").1 h) ∙ e), refl)))
        | inl e ↦
            let waits = (eq_iff r.status "Pending").0 e in
            elim (Option-cases (c.find_one_and_update (object_id r.id) ch p.db)) [
              | inl n ↦
                  simp (e, reads, writes, n, patch_verified, update_request_by_id, write_changes)
                    (inr (inl (waits, refl, refl)))
              | inr ((new, db), u) ↦
                  let (set, one) =
                    laws.replaced (object_id r.id) ch p.db db rest r new (unique (object_id r.id))
                      (again ∙ found) u in
                  let kept = find-requested "status" env op requested refl refl refl in
                  simp
                    (
                      e, reads, writes, publishes, u, patch_verified, update_request_by_id,
                      write_changes,
                    )
                    (inl (
                      waits,
                      (
                        new,
                        db,
                        refl,
                        one,
                        set.id_kept,
                        set.admin_set op (find-admin env op requested),
                        asked_status c decrypt object_id laws hex new
                            (find_setting "status" requested) (λ s h. set.status_set s (kept ∙ h)),
                      ),
                    ))
            ]
      ]
    where
      ch : Changes
      ch = requested_change env op requested

      again : c.find (has_id (object_id r.id)) p.db ≡ c.find (has_id (object_id id)) p.db
      again =
          ap (λ i. c.find (has_id i) p.db)
            (found_again c decrypt object_id laws hex id p r rest found)

  -- Where the ids are different, and the body of the patch is read, the database written and the
  -- message published: the verification answers 200 and the tokens match, and then the patch is made
  -- if the request is pending and the database finds it, and refused without a change if it is not
  -- pending; or the verification does not answer 200, and a patch with the same tokens changes
  -- nothing.
  pub handle_verify_matching_tokens-handle_patch_request_by_id :
      (env : Env) (token : String) (link : Option String) (requested : Changes) (p : Server)
      → IsUnique p
      → env.can_read_body ≡ true
      → env.can_write ≡ true
      → env.can_publish ≡ true
      → let answer = handle_verify_matching_tokens c decrypt object_id env token link p in
        let patch =
          handle_patch_request_by_id c decrypt object_id env token link (some requested) p in
        ((answer ≡ bare 200)
          × ((r : Request) × (op : String) × AreMatching token link r op p
              × IsPatchOf env r op requested p patch))
        ⊎ ((answer ≢ bare 200) × (patch.0 ≡ p))
  unfolding handle_verify_matching_tokens handle_patch_request_by_id
  handle_verify_matching_tokens-handle_patch_request_by_id env token none requested p unique reads
        writes publishes =
      inr (λ e. cc, refl)
  handle_verify_matching_tokens-handle_patch_request_by_id env token (some adm) requested p unique
        reads writes publishes =
      elim (Bool-cases (adm == "")) [
        | inl e ↦ rw e (inr (λ h. cc, refl))
        | inr e ↦ elim (Result-cases (verify_matching_tokens c decrypt object_id env token adm p)) [
          | inr (inl (m, v)) ↦ rw (e, v) (inr (λ h. absurd (bare-refused h), refl))
          | inr (inr v) ↦ rw (e, v) (inr (λ h. cc, refl))
          | inl ((r, op), v) ↦
              let (is_named, is_op, is_assigned) =
                verified c decrypt object_id laws hex env token adm p r op v in
              let done =
                granted env token op r requested p unique reads writes publishes is_named in
              rw (e, v) (inl (refl, (r, op, (adm, refl, is_op, is_named, is_assigned), done)))
        ]
      ]
