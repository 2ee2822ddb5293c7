-- ===== src/Contract/Decide.antt =====
-- An op's link is as good as the op: from the worker's mail to the stored decision.
use mc_gatekeeper.Prelude.{
  ℕ, String, true, false, ◌==◌, some, List, [], ◌∷◌, ◌++◌, length, Memᴰ, ◌≡◌, refl, sym, ap, ◌∙◌,
  inl, inr, Bool-cases, eq_iff,
}
use mc_gatekeeper.Js.{str}
use mc_gatekeeper.Types.{Request}
use mc_gatekeeper.Result.{Result, ok, ok≢panics}
use mc_gatekeeper.Tokens.{Crypto, encode_and_encrypt, decode_and_decrypt}
use mc_gatekeeper.Tokens.Laws.{
  IsCrypto, decode_and_decrypt-encode_and_encrypt, decode_and_decrypt-nil,
}
use mc_gatekeeper.Server.{
  Changes, value, find_setting, requested_change, Collection, Env, Server, updated, has_id, is_in,
  get_request_by_encrypted_id, verify_matching_tokens, patch_verified, handle_patch_request_by_id,
  update_request_by_id, write_changes,
}
use mc_gatekeeper.Server.Laws.{IsCollection}
use mc_gatekeeper.Server.Change.{find-requested, find-admin}
use mc_gatekeeper.Server.Op.{IsUnique, found_again}
use mc_gatekeeper.Worker.{World, email_to_ops}
use mc_gatekeeper.Contract.Links.{ops_mail, assigned_ops, email_to_ops-HasMail}

-- Everything that the handler asks for works.
pub record IsReady (env : Env) : Type 0 where
  pub reads : env.can_read_body ≡ true
  pub finds : env.can_find ≡ true
  pub writes : env.can_write ≡ true
  pub publishes : env.can_publish ≡ true

module _ (g : Crypto) (passphrase : String) where
  abbrev pub decrypt : String → Result String
  decrypt s = decode_and_decrypt g s passphrase

  -- The worker's tokens are made with nonces of the right length.
  abbrev pub IsMade : World → Type 0
  IsMade w =
      (s token : String)
      → w.encrypt s ≡ some token
      → (nonce : List ℕ) × (length nonce ≡ g.nonce_size)
        × (encode_and_encrypt g (some nonce) s passphrase ≡ some token)

  module _ (crypto : IsCrypto g) (w : World) (made : IsMade w) where
    -- A token of the worker is read back as its text.
    pub decoded :
        (s token : String) → w.encrypt s ≡ some token → decode_and_decrypt g token passphrase ≡ ok s
    decoded s token e =
        let (nonce, size, by) = made s token e in
        decode_and_decrypt-encode_and_encrypt g crypto nonce s passphrase token size by

    not_nil : (s token : String) → w.encrypt s ≡ some token → (token == "") ≡ false
    not_nil s token e = elim (Bool-cases (token == "")) [
      | inr no_nil ↦ no_nil
      | inl nil ↦ absurd (
          ok≢panics (
            sym (decoded s token e)
            ∙ ap (λ x. decode_and_decrypt g x passphrase) ((eq_iff token "").0 nil)
            ∙ decode_and_decrypt-nil g passphrase crypto))
    ]

  module _ (c : Collection) (object_id : String → String) (laws : IsCollection c)
      (hex : (s : String) → object_id (object_id s) ≡ object_id s) (crypto : IsCrypto g) (w : World)
      (made : IsMade w) where
    verifies :
        (env : Env) (p : Server) (r stored : Request) (rest : List Request)
        (op token op_token : String)
        → env.can_find ≡ true
        → w.encrypt r.id ≡ some token
        → w.encrypt op ≡ some op_token
        → c.find (has_id (object_id r.id)) p.db ≡ stored ∷ rest
        → is_in op stored.assignees ≡ true
        → verify_matching_tokens c decrypt object_id env token op_token p ≡ ok (stored, op)
    unfolding verify_matching_tokens get_request_by_encrypted_id
    verifies env p r stored rest op token op_token finds e o found assigned =
        simp
          (
            decoded crypto w made r.id token e,
            decoded crypto w made op op_token o,
            finds,
            found,
            assigned,
            verify_matching_tokens,
            get_request_by_encrypted_id,
          )
          refl

    writes :
        (env : Env) (p : Server) (stored new : Request) (after : List Request) (op : String)
        (requested : Changes)
        → IsReady env
        → stored.status ≡ "Pending"
        → c.find_one_and_update (object_id stored.id) (requested_change env op requested) p.db
          ≡ some (new, after)
        → patch_verified c decrypt object_id env stored op (some requested) p
          ≡ (record { db = after; published = p.published ++ new ∷ [] }, updated new)
    unfolding patch_verified update_request_by_id write_changes
    writes env p stored new after op requested ready pending done =
        simp
          (
            ap (λ s. s == "Pending") pending,
            ready.reads,
            ready.writes,
            done,
            ready.publishes,
            patch_verified,
            update_request_by_id,
            write_changes,
          )
          refl

    -- Where the worker has assigned a new request to an op, and it is stored as pending and
    -- assigned to that op, the op has been mailed a link, in a mail that can be sent; a patch with the link's two tokens and a
    -- status changes the stored request to that status, in the op's name, and publishes it,
    -- provided that everything the handler asks for works.
    pub assigned-decides :
        (r stored new : Request) (op s : String) (requested : Changes) (env : Env) (p : Server)
        (rest after : List Request)
        → is_in op (assigned_ops (email_to_ops w r).0) ≡ true
        → c.find (has_id (object_id r.id)) p.db ≡ stored ∷ rest
        → is_in op stored.assignees ≡ true
        → stored.status ≡ "Pending"
        → IsUnique p
        → IsReady env
        → find_setting "status" requested ≡ some (value (str s))
        → c.find_one_and_update (object_id stored.id) (requested_change env op requested) p.db
          ≡ some (new, after)
        → (token : String) × (op_token : String) × Memᴰ
            (ops_mail w r token op op_token)
            (email_to_ops w r).0
          × (w.sends "./mailer/templates/ops.html" op ≡ true)
          × (handle_patch_request_by_id c decrypt object_id env token
                (some op_token)
                (some requested)
                p
              ≡ (record { db = after; published = p.published ++ new ∷ [] }, updated new))
          × (new.id ≡ stored.id)
          × (new.status ≡ s)
          × (new.admin ≡ op)
    unfolding handle_patch_request_by_id
    assigned-decides r stored new op s requested env p rest after mailed found assigned pending
          unique ready asked done =
        let (token, e, (op_token, o, there), sent) = email_to_ops-HasMail w r op mailed in
        let verified =
          verifies env p r stored rest op token op_token ready.finds e o found assigned in
        let again =
          ap (λ i. c.find (has_id i) p.db)
            (found_again c decrypt object_id laws hex r.id p stored rest found)
          ∙ found in
        let set =
          (laws.replaced (object_id stored.id) (requested_change env op requested) p.db after rest
            stored new (unique (object_id stored.id)) again done).0 in
        (
          token,
          op_token,
          there,
          sent,
          rw (not_nil crypto w made op op_token o, verified)
              (writes env p stored new after op requested ready pending done),
          set.id_kept,
          set.status_set s (find-requested "status" env op requested refl refl refl ∙ asked),
          set.admin_set op (find-admin env op requested),
        )
