-- ===== src/Server.antt =====
-- server/server: the handlers that create and change whitelist requests (handler.external.go,
-- handler.internal.go, common.go), on the collection of server/db/db.go and the queue of
-- server/broker. One handler runs after another; the internal ones are reached by an
-- authenticated admin. A handler that panics answers nothing. An id is its hexadecimal text, and the documents are those that decode.
pub mod Data
pub mod Reads
pub mod Laws
pub mod Change
mod Sound
pub mod Once
pub mod Stranded
pub mod Op
pub mod Verify
pub mod Minecraft
pub mod Auth
pub mod Recaptcha
pub mod Tests
use mc_gatekeeper.Prelude.{
  ℕ, String, Bool, true, false, not, ◌&&◌, ◌||◌, ◌==◌, Option, none, some, List, [], ◌∷◌, ◌++◌,
  if◌then◌else◌,
}
unfoldable pub use Data.*
use mc_gatekeeper.Result.{Result, ok, err}
use mc_gatekeeper.Types.{Request}

-- `decrypt` is `utils.DecodeAndDecrypt` with the passphrase (Tokens), `object_id` the text of what
-- `ObjectIDFromHex` returns, the zero id for a text that is not one.
module _ (c : Collection) (decrypt : String → Result String) (object_id : String → String) where
  -- `GetRequests`
  abbrev pub get_requests : Env → (Request → Bool) → Server → Option (List Request)
  get_requests env filter p = if env.can_find then some (c.find filter p.db) else none

  -- `updateRequestByID` from the update on
  unfoldable pub write_changes : Env → String → Changes → Server → Server × Response
  write_changes env id ch p =
      elim (if env.can_write then c.find_one_and_update (object_id id) ch p.db else none) [
        | none ↦ (p, error 500 "Unable to update request")
        | some (new, db) ↦
            if env.can_publish
            then (record { db = db; published = p.published ++ new ∷ [] }, updated new)
            else (record p { db = db }, error 500 "Unable to update request")
      ]

  -- `updateRequestByID`: a body that is no JSON object leaves a nil map, which cannot be assigned.
  unfoldable pub update_request_by_id :
      Env → String → Option Changes → String → Server → Server × Response
  unfolding write_changes
  update_request_by_id env id none admin p = (p, Response.panics)
  update_request_by_id env id (some requested) admin p =
      write_changes env id (requested_change env admin requested) p

  -- `getRequestByEncryptedID`
  unfoldable pub get_request_by_encrypted_id : Env → String → Server → Fetched
  get_request_by_encrypted_id env token p = elim (decrypt token) [
    | err _ ↦ refused 400 "Unable to decode token"
    | Result.panics ↦ crashes
    | ok id ↦ elim (get_requests env (has_id (object_id id)) p) [
      | none ↦ refused 500 "Unable to get reqeuest by ID"
      | some [] ↦ refused 400 "Resource not found"
      | some (r ∷ rest) ↦ fetched r
    ]
  ]

  -- `verifyMatchingTokens`
  unfoldable pub verify_matching_tokens : Env → String → String → Server → Result (Request × String)
  unfolding get_request_by_encrypted_id
  verify_matching_tokens env token adm p = elim (decrypt adm) [
    | err e ↦ err e
    | Result.panics ↦ Result.panics
    | ok op ↦ elim (get_request_by_encrypted_id env token p) [
      | refused status message ↦ err message
      | crashes ↦ Result.panics
      | fetched r ↦ if is_in op r.assignees then ok (r, op) else err "Tokens do not match"
    ]
  ]

  -- `HandlePatchRequestByID` after the tokens are verified
  unfoldable pub patch_verified :
      Env → Request → String → Option Changes → Server → Server × Response
  unfolding update_request_by_id
  patch_verified env r op body p =
      if not (r.status == "Pending")
      then (p, error 400 "Request is already fulfilled")
      else if not env.can_read_body
      then (p, error 400 "Unable to read request body")
      else update_request_by_id env r.id body op p

  -- `HandlePatchRequestByID`
  unfoldable pub handle_patch_request_by_id :
      Env → String → Option String → Option Changes → Server → Server × Response
  unfolding verify_matching_tokens patch_verified
  handle_patch_request_by_id env token none body p = (p, error 400 "adm token is missing")
  handle_patch_request_by_id env token (some adm) body p =
      if adm == ""
      then (p, error 400 "adm token is missing")
      else elim (verify_matching_tokens env token adm p) [
        | err _ ↦ (p, error 400 "Tokens do not match")
        | Result.panics ↦ (p, Response.panics)
        | ok (r, op) ↦ patch_verified env r op body p
      ]

  -- `HandleInternalPatchRequestByID`
  unfoldable pub handle_internal_patch_request_by_id :
      Env → String → Option Changes → Server → Server × Response
  unfolding update_request_by_id
  handle_internal_patch_request_by_id env id body p =
      if not env.can_read_body
      then (p, error 400 "Unable to read request body")
      else elim (get_requests env (has_id (object_id id)) p) [
        | none ↦ (p, error 500 "Unable to get request")
        | some [] ↦ (p, error 400 "Invalid requestId")
        | some (r ∷ rest) ↦ update_request_by_id env id body "admin" p
      ]

  -- `validateCreateRequest`: none where the request may be created.
  unfoldable pub validate_create_request : Env → Request → Server → Option Response
  unfolding conflict
  validate_create_request env new p = elim (get_requests env (lives_as new.username) p) [
    | none ↦ some (error 500 "Unable to validate new request")
    | some [] ↦ none
    | some (found ∷ rest) ↦ conflict found
  ]

  -- The rest of `HandleCreateRequest`, with `CreateRequest`.
  unfoldable pub create_valid : Env → Request → Server → Server × Response
  create_valid env new p =
      let stored = record new { id = env.new_id; timestamp = env.now1; status = "Pending" } in
      elim (if env.can_write then c.insert_one stored p.db else none) [
        | none ↦ (p, error 500 "Unable to create new request")
        | some db ↦
            let message = record new { id = env.new_id; status = "Pending" } in
            if env.can_publish
            then (record { db = db; published = p.published ++ message ∷ [] }, created env.new_id)
            else (record p { db = db }, error 500 "Unable to create new request")
      ]

  -- `HandleCreateRequest`, with the body as `json.Unmarshal` reads it
  unfoldable pub handle_create_request : Env → Option Request → Server → Server × Response
  unfolding validate_create_request create_valid
  handle_create_request env body p =
      if not env.can_read_body then (p, error 400 "Unable to read request body") else elim body [
        | none ↦ (p, error 500 "Unable to unmarshal request body")
        | some new ↦ elim (validate_create_request env new p) [
          | some no_go ↦ (p, no_go)
          | none ↦ create_valid env new p
        ]
      ]

  -- A request to the server that may change it.
  pub data Call : Type 0 where
    create : Env → Option Request → Call
    patch : Env → String → Option String → Option Changes → Call
    internal_patch : Env → String → Option Changes → Call

  unfoldable pub step : Call → Server → Server
  unfolding handle_create_request handle_patch_request_by_id handle_internal_patch_request_by_id
  step (create env body) p = (handle_create_request env body p).0
  step (patch env token adm body) p = (handle_patch_request_by_id env token adm body p).0
  step (internal_patch env id body) p = (handle_internal_patch_request_by_id env id body p).0

  unfoldable pub run : List Call → Server → Server
  unfolding step
  run [] p = p
  run (call ∷ calls) p = run calls (step call p)
