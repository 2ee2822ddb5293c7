-- ===== src/Server/Data.antt =====
-- What the handlers of server/server work on: the collection of server/db/db.go with its queries, the
-- changes that a patch asks for, and the responses.
use mc_gatekeeper.Prelude.{
  ℕ, String, Bool, false, ◌&&◌, ◌||◌, ◌==◌, Option, none, some, List, [], ◌∷◌, if◌then◌else◌,
}
use mc_gatekeeper.Prelude.Int.{ℤ}
use mc_gatekeeper.Js.{Value, str}
use mc_gatekeeper.Types.{Request}

-- A field of a `$set`: from the request's body, or a time.
pub data Setting : Type 0 where
  value : Value → Setting
  time : ℕ → Setting

abbrev pub Changes : Type 0
Changes = List (String × Setting)

-- A read and a write of a `bson.M`.
abbrev pub find_setting : String → Changes → Option Setting
find_setting key [] = none
find_setting key ((name, v) ∷ rest) = if name == key then some v else find_setting key rest

abbrev pub put : String → Setting → Changes → Changes
put key v [] = (key, v) ∷ []
put key v ((name, w) ∷ rest) = if name == key then (key, v) ∷ rest else (name, w) ∷ put key v rest

-- The collection's operations: `Find` sorted by `timestamp`, `InsertOne` and `FindOneAndUpdate` of
-- an id, where they do not fail.
pub record Collection : Type 0 where
  pub find : (Request → Bool) → List Request → List Request
  pub insert_one : Request → List Request → Option (List Request)
  pub find_one_and_update : String → Changes → List Request → Option (Request × List Request)

-- What a handler meets: the clock at its calls of `time.Now`, the new id, and what works.
pub record Env : Type 0 where
  pub now1 : ℕ
  pub now2 : ℕ
  pub new_id : String
  pub can_read_body : Bool
  pub can_find : Bool
  pub can_write : Bool
  pub can_publish : Bool

-- The stored requests, and the messages that were published.
pub record Server : Type 0 where
  pub db : List Request
  pub published : List Request

-- The fields of a request that a player gets.
pub record Shown : Type 0 where
  pub username : String
  pub email : String
  pub status : String
  pub timestamp : ℕ
  pub info : Value
  pub age : ℤ
  pub id : String
  pub gender : String

pub data Response : Type 0 where
  created : String → Response
  updated : Request → Response
  shown : Shown → Response
  listed : List Request → Response
  bare : ℕ → Response
  error : ℕ → String → Response
  panics : Response

-- What `getRequestByEncryptedID` returns: a request, or an error with its status.
pub data Fetched : Type 0 where
  fetched : Request → Fetched
  refused : ℕ → String → Fetched
  crashes : Fetched

-- The filters of the queries.
abbrev pub has_id : String → Request → Bool
has_id id r = r.id == id

abbrev pub is_live : Request → Bool
is_live r = r.status == "Pending" || r.status == "Approved" || r.status == "Banned"

abbrev pub lives_as : String → Request → Bool
lives_as username r = r.username == username && is_live r

abbrev pub is_in : String → List String → Bool
is_in op [] = false
is_in op (a ∷ rest) = op == a || is_in op rest

abbrev pub text_of : Option Setting → Option String
text_of (some (value (str s))) = some s
text_of _ = none

-- The times of a status change.
abbrev pub stamped_as : Env → Option String → Changes → Changes
stamped_as env none ch = ch
stamped_as env (some s) ch =
    if s == "Approved" || s == "Denied"
    then put "lastUpdatedTimestamp" (time env.now2) (put "processedTimestamp" (time env.now1) ch)
    else if s == "Deactivated" || s == "Banned"
    then put "lastUpdatedTimestamp" (time env.now1) ch
    else ch

unfoldable pub stamped : Env → Changes → Changes
stamped env ch = stamped_as env (text_of (find_setting "status" ch)) ch

-- What `updateRequestByID` asks to be set.
abbrev pub requested_change : Env → String → Changes → Changes
requested_change env admin requested = stamped env (put "admin" (value (str admin)) requested)

abbrev pub message_pending : String
message_pending =
    "There is a pending request associated with this username. You can not submit another request at this time. If you haven't received result within 24 hours, please contact admin"

-- The answer for a live request that there is.
unfoldable pub conflict : Request → Option Response
conflict found =
    if found.status == "Approved"
    then some (error 409 "The request associated with this username is already approved")
    else if found.status == "Pending"
    then some (error 422 message_pending)
    else if found.status == "Banned"
    then some (error 403 "The user has been banned from the server")
    else none
