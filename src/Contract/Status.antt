-- ===== src/Contract/Status.antt =====
-- The link of a player's confirmation mail: server/worker/worker.go, `HandleGetRequestByID` and
-- app/src/components/CheckStatus.js.
use mc_gatekeeper.Prelude.{
  ℕ, ◌≤◌, ◌==◌, if◌then◌else◌, String, true, none, some, List, [], ◌∷◌, Memᴰ, ◌≡◌, refl, subst,
  take_at,
}
use mc_gatekeeper.Js.{Value, str, get, truthy, Outcome, fulfilled, rejected}
use mc_gatekeeper.Types.{Request}
use mc_gatekeeper.Tokens.{Crypto}
use mc_gatekeeper.Tokens.Laws.{IsCrypto}
use mc_gatekeeper.Server.{
  Collection, Env, Server, Shown, Response, shown, error, panics, has_id,
  get_request_by_encrypted_id,
}
use mc_gatekeeper.Server.Reads.{fields_of, handle_get_request_by_id}
use mc_gatekeeper.Worker.{Effect, mail, World, email_confirmation}
use mc_gatekeeper.Js.Text.{child}
use mc_gatekeeper.CheckStatus.{
  on_request, answer, step, run, opened, render, details, get_button_color,
  get_application_status_text,
}
use mc_gatekeeper.CheckStatus.Labels.{color}
use mc_gatekeeper.Contract.Decide.{decrypt, IsMade, decoded}
use Prim.Native.String.{◌++◌}

-- The JSON of the fields.
pub record IsJsonOf (s : Shown) (timestamp r : Value) : Type 0 where
  pub is_object : truthy r ≡ true
  pub username : get r "username" ≡ some (str s.username)
  pub email : get r "email" ≡ some (str s.email)
  pub status : get r "status" ≡ some (str s.status)
  pub id : get r "_id" ≡ some (str s.id)
  pub timestamp_there : get r "timestamp" ≡ some timestamp

-- How the promise settles for a response: the JSON of the fields arrives, axios rejects the other
-- statuses, and a handler that panics closes the connection.
pub data Settles (timestamp : Value) : Response → Outcome → Type 0 where
  resolves :
      (s : Shown) (body r : Value)
      → get body "request" ≡ some r
      → IsJsonOf s timestamp r
      → Settles timestamp (shown s) (fulfilled 200 body)
  rejects :
      (status : ℕ) (message : String)
      → 300 ≤ status
      → Settles timestamp (error status message) (rejected (some status))
  closes : Settles timestamp panics (rejected none)

abbrev pub confirmation : World → Request → String → Effect
confirmation w r token =
    mail "./mailer/templates/confirmation.html" (w.frontend_deployed_url ++ ("status/" ++ token))
      w.confirmation_email_title r.email

module _ (c : Collection) (object_id : String → String) (g : Crypto) (passphrase : String)
    (crypto : IsCrypto g) (w : World) (made : IsMade g passphrase w) where
  -- The server gives the fields of the request that a token of the worker names.
  pub handle_get_request_by_id-fields_of :
      (env : Env) (p : Server) (r stored : Request) (rest : List Request) (token : String)
      → w.encrypt r.id ≡ some token
      → env.can_find ≡ true
      → c.find (has_id (object_id r.id)) p.db ≡ stored ∷ rest
      → handle_get_request_by_id c (decrypt g passphrase) object_id env token p
        ≡ shown (fields_of stored)
  unfolding handle_get_request_by_id get_request_by_encrypted_id
  handle_get_request_by_id-fields_of env p r stored rest token e finds found =
      simp
        (
          decoded g passphrase crypto w made r.id token e,
          finds,
          found,
          get_request_by_encrypted_id,
          handle_get_request_by_id,
        )
        refl

  -- What the page of the link renders for the fields: the text of a status that is pending, approved
  -- or denied, and none for any other.
  abbrev pub label : (String → String) → String → String
  label t status =
      if status == "Pending"
      then t "Status.Pending"
      else if status == "Approved"
      then t "Status.Approved"
      else if status == "Denied"
      then t "Status.Denied"
      else ""

  shows :
      (t : String → String) (from_now : Value → String) (s : Shown) (o : Outcome) (token : String)
      (timestamp : Value)
      → Settles timestamp (shown s) o
      → let q = run (answer 0 o ∷ []) (opened token) in
        render t from_now q.state
        ≡ some (
            details t from_now s.username s.email
              (color t s.status)
              (label t s.status)
              s.id
              timestamp)
  unfolding run step on_request take_at render get_button_color get_application_status_text child
  shows t from_now _ o token timestamp (resolves s body r has j) =
      simp (has, j.is_object, j.username, j.email, j.status, j.id, j.timestamp_there) refl

  -- A player who has sent a request is mailed a link to a page that shows the stored request: its
  -- username, its email, its id, the color of its status, and the text of its status where that is
  -- pending, approved or denied, and no text for any other; provided that the token of the link could
  -- be made, the database answers and the response arrives.
  pub confirmation-shows :
      (t : String → String) (from_now : Value → String) (env : Env) (p : Server)
      (r stored : Request) (rest : List Request) (token : String) (o : Outcome) (timestamp : Value)
      → w.encrypt r.id ≡ some token
      → env.can_find ≡ true
      → c.find (has_id (object_id r.id)) p.db ≡ stored ∷ rest
      → Settles timestamp
          (handle_get_request_by_id c (decrypt g passphrase) object_id env token p)
          o
      → let q = run (answer 0 o ∷ []) (opened token) in
        Memᴰ (confirmation w r token) (email_confirmation w r)
        × (render t from_now q.state
            ≡ some (
                details t from_now stored.username stored.email
                  (color t stored.status)
                  (label t stored.status)
                  stored.id
                  timestamp))
  unfolding email_confirmation
  confirmation-shows t from_now env p r stored rest token o timestamp e finds found settled =
      let a = handle_get_request_by_id-fields_of env p r stored rest token e finds found in
      let arrived = subst (λ x. Settles timestamp x o) a settled in
      (
        simp (e, email_confirmation) (Memᴰ.head refl),
        shows t from_now (fields_of stored) o token timestamp arrived,
      )
