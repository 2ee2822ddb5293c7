-- ===== src/Server/Reads.antt =====
-- server/server: the handlers that only read.
use mc_gatekeeper.Prelude.{String, true, ◌==◌, Option, none, some, List, if◌then◌else◌}
use mc_gatekeeper.Result.{Result, ok, err}
use mc_gatekeeper.Types.{Request}
use mc_gatekeeper.Server.{
  Collection, Env, Server, Shown, Response, shown, listed, bare, error, fetched, refused, crashes,
  get_requests, get_request_by_encrypted_id, verify_matching_tokens,
}

-- The message of `HandleGetRequestByID`
abbrev pub fields_of : Request → Shown
fields_of r = record {
  username = r.username;
  email = r.email;
  status = r.status;
  timestamp = r.timestamp;
  info = r.info;
  age = r.age;
  id = r.id;
  gender = r.gender;
}

module _ (c : Collection) (decrypt : String → Result String) (object_id : String → String) where
  -- `HandleGetRequestByID`
  unfoldable pub handle_get_request_by_id : Env → String → Server → Response
  unfolding get_request_by_encrypted_id
  handle_get_request_by_id env token p =
      elim (get_request_by_encrypted_id c decrypt object_id env token p) [
        | refused status message ↦ error status message
        | crashes ↦ Response.panics
        | fetched r ↦ shown (fields_of r)
      ]

  -- `HandleVerifyMatchingTokens`
  unfoldable pub handle_verify_matching_tokens : Env → String → Option String → Server → Response
  unfolding verify_matching_tokens
  handle_verify_matching_tokens env token none p = error 400 "adm token is missing"
  handle_verify_matching_tokens env token (some adm) p =
      if adm == ""
      then error 400 "adm token is missing"
      else elim (verify_matching_tokens c decrypt object_id env token adm p) [
        | err _ ↦ bare 400
        | Result.panics ↦ Response.panics
        | ok _ ↦ bare 200
      ]

  -- `HandleGetRequests`, for what `GetAllRequests` of the cache returns
  unfoldable pub handle_get_requests : Env → Option (List Request) → Server → Response
  handle_get_requests env (some cached) p = listed cached
  handle_get_requests env none p = elim (get_requests c decrypt object_id env (λ r. true) p) [
    | none ↦ error 500 "Unable to get all requests"
    | some requests ↦ listed requests
  ]
