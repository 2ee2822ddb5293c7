-- ===== src/Contract/StatusTests.antt =====
-- The links of the mails at a list as the collection, with the sample cipher.
use mc_gatekeeper.Prelude.{String, some, [], ◌∷◌, Memᴰ, ◌≡◌, refl, subst, sym}
use mc_gatekeeper.Js.{Value, str, obj, field, end, fulfilled}
use mc_gatekeeper.Types.{Request}
use mc_gatekeeper.Tokens.{encode_and_encrypt}
use mc_gatekeeper.Tokens.Sample.{sample, encode, sample-IsCrypto}
use mc_gatekeeper.Server.{Server}
use mc_gatekeeper.Server.Reads.{fields_of}
use mc_gatekeeper.Server.Tests.Store.{store}
use mc_gatekeeper.Worker.{email_confirmation}
use mc_gatekeeper.CheckStatus.{answer, run, opened, render, details}
use mc_gatekeeper.Server.Reads.{handle_get_request_by_id}
use mc_gatekeeper.Contract.Decide.{decrypt}
use mc_gatekeeper.Contract.Status.{
  IsJsonOf, Settles, resolves, confirmation, handle_get_request_by_id-fields_of, confirmation-shows,
}
use mc_gatekeeper.Contract.Tests.{object_id, world, world-IsMade, steve, stored, env}

abbrev denied : Request
denied = record stored { status = "Denied" }

abbrev decided : Server
decided = record { db = denied ∷ []; published = [] }

abbrev time : Value
time = str "1970-01-01T00:00:00Z"

abbrev fields : Value
fields = obj (
    field "_id" (str denied.id) (
      field "username" (str denied.username) (
        field "email" (str denied.email)
          (field "status" (str "Denied") (field "timestamp" time end)))))

abbrev body : Value
body = obj (field "request" fields end)

fields-IsJsonOf : IsJsonOf (fields_of denied) time fields
fields-IsJsonOf = record {
  is_object = refl;
  username = refl;
  email = refl;
  status = refl;
  id = refl;
  timestamp_there = refl;
}

abbrev keys : String → String
keys k = k

abbrev ago : Value → String
ago v = "an hour ago"

abbrev token : String
token = encode (7 ∷ 8 ∷ 49 ∷ [])

body-Settles :
    Settles time
      (handle_get_request_by_id store (decrypt sample "key") object_id env token decided)
      (fulfilled 200 body)
unfolding encode_and_encrypt
body-Settles =
    subst (λ x. Settles time x (fulfilled 200 body))
      (sym (
        handle_get_request_by_id-fields_of store object_id sample "key" sample-IsCrypto world
          world-IsMade env decided steve denied [] token refl refl refl))
      (resolves (fields_of denied) body fields refl fields-IsJsonOf)

confirmation-shows_example :
    let q = run (answer 0 (fulfilled 200 body) ∷ []) (opened token) in
    Memᴰ (confirmation world steve token) (email_confirmation world steve)
    × (render keys ago q.state
        ≡ some
            (details keys ago denied.username denied.email "danger" "Status.Denied" denied.id time))
unfolding encode_and_encrypt
confirmation-shows_example =
    confirmation-shows store object_id sample "key" sample-IsCrypto world world-IsMade keys ago env
      decided steve denied [] token (fulfilled 200 body) time refl refl refl body-Settles
