-- ===== src/Server/Tests.antt =====
-- The server at a collection that is a list.
pub mod Store
use mc_gatekeeper.Prelude.{
  ℕ, ◌≤◌, String, true, false, ◌==◌, Option, none, some, List, [], ◌∷◌, ◌≡◌, ◌≢◌, ◌⊎◌, refl, sym,
  ap, ◌∙◌, subst, inr, map, arith, if◌then◌else◌, count_if,
}
use mathlib.Core.Option.{some-injective}
use mathlib.Core.List.{head-eq_of_cons-eq}
use mc_gatekeeper.Prelude.Int.{pos}
use mc_gatekeeper.Js.{undefined, str}
use mc_gatekeeper.Result.{Result, ok, err, panics}
use mc_gatekeeper.Types.{Request}
use mc_gatekeeper.Dashboard.Landing.Transitions.{◌⟶◌, banning}
use mc_gatekeeper.Server.{
  Changes, value, find_setting, Env, Server, Response, bare, patch_verified, error, message_pending,
  has_id, is_in, lives_as, handle_create_request, handle_patch_request_by_id, create_valid,
  validate_create_request, create, internal_patch, Call, run, step, stamped,
}
use mc_gatekeeper.Server.Reads.{handle_verify_matching_tokens}
use mc_gatekeeper.Server.Verify.{
  AreMatching, IsPatchOf, handle_verify_matching_tokens-handle_patch_request_by_id,
}
use mc_gatekeeper.Server.Laws.{IsReplaced}
use mc_gatekeeper.Server.Op.{IsAuthorized, handle_patch-authorized}
use mc_gatekeeper.Server.Sound.{
  IsSound, IsPlain, IsOffered, creating, managing, AreAllowed, done, next_call,
}
use mc_gatekeeper.Server.Once.{run-IsSound}
use mc_gatekeeper.Server.Stranded.{create-stranded, create_valid-twice}
use mc_gatekeeper.Server.Tests.Store.{store, store-IsCollection}

abbrev decrypt : String → Result String
decrypt s =
    if s == "link-1"
    then ok "1"
    else if s == "link-op"
    then ok "op@x.org"
    else if s == ""
    then panics
    else err "no token"

-- The ids of the tests are their own text.
abbrev object_id : String → String
object_id s = s

abbrev env : Env
env = record {
  now1 = 10;
  now2 = 11;
  new_id = "2";
  can_read_body = true;
  can_find = true;
  can_write = true;
  can_publish = true;
}

abbrev steve : Request
steve = record {
  id = "1";
  username = "steve";
  email = "s@x.org";
  age = pos 20;
  gender = "male";
  status = "Approved";
  timestamp = 0;
  processed_timestamp = 0;
  last_updated_timestamp = 0;
  admin = "";
  note = "";
  info = undefined;
  assignees = "op@x.org" ∷ [];
}

abbrev with_steve : Server
with_steve = record { db = steve ∷ []; published = [] }

abbrev nobody : Server
nobody = record { db = []; published = [] }

abbrev ban : Changes
ban = ("status", value (str "Banned")) ∷ []

ban-IsPlain : IsPlain (some ban)
ban-IsPlain requested e = ap (find_setting "username") (sym (some-injective _ _ e))

ban-IsOffered :
    IsOffered store decrypt object_id store-IsCollection (λ s. refl) "1" (some ban) with_steve
ban-IsOffered old rest requested found e = inr (
  "Banned",
  ap (find_setting "status") (sym (some-injective _ _ e)),
  subst (λ (r : Request). r.status ⟶ "Banned") (head-eq_of_cons-eq found) banning,
)

steve-IsSound : IsSound with_steve
steve-IsSound = record { ids_once = λ id. ground arith; lives_once = λ u. ground arith }

abbrev calls : List (Call store decrypt object_id)
calls = internal_patch env "1" (some ban) ∷ create env (some steve) ∷ []

run-IsSound_example : IsSound (run store decrypt object_id calls with_steve)
run-IsSound_example =
    run-IsSound store decrypt object_id store-IsCollection (λ s. refl) calls with_steve
      (next_call with_steve _ _ (managing env "1" (some ban) ban-IsPlain ban-IsOffered)
        (next_call _ _ [] (creating env (some steve)) (done _)))
      steve-IsSound

-- The ban is made, and then the player is refused.
calls-banned : map (λ r. r.status) (run store decrypt object_id calls with_steve).db ≡ "Banned" ∷ []
unfolding run step stamped
calls-banned = refl

abbrev waiting : Server
waiting = record { db = (record steve { status = "Pending" }) ∷ []; published = [] }

abbrev approval : Changes
approval = ("status", value (str "Approved")) ∷ ("admin", value (str "someone")) ∷ []

abbrev patched : Server × Response
patched =
    handle_patch_request_by_id store decrypt object_id env "link-1" (some "link-op") (some approval)
      waiting

handle_patch-authorized_example :
    (patched.0 ≡ waiting)
    ⊎ IsAuthorized store decrypt object_id store-IsCollection
        (λ s. refl)
        "link-1"
        (some "link-op")
        (some approval)
        waiting
        patched.0
handle_patch-authorized_example =
    handle_patch-authorized store decrypt object_id store-IsCollection (λ s. refl) env "link-1"
      (some "link-op") (some approval) waiting (λ id. ground arith)

-- The approval is made, in the op's name.
patched-admin : map (λ r. r.admin) patched.0.db ≡ "op@x.org" ∷ []
unfolding handle_patch_request_by_id stamped
patched-admin = refl

abbrev unpublished : Env
unpublished = record env { can_publish = false }

create-stranded_example :
    let q = handle_create_request store decrypt object_id unpublished (some steve) nobody in
    (q.1 ≡ error 500 "Unable to create new request")
    × (q.0.published ≡ [])
    × (handle_create_request store decrypt object_id env (some steve) q.0
        ≡ (q.0, error 422 message_pending))
unfolding validate_create_request
create-stranded_example =
    create-stranded store decrypt object_id store-IsCollection (λ s. refl) unpublished env steve
      nobody _ refl refl refl refl refl refl refl

abbrev env' : Env
env' = record env { new_id = "3" }

create_valid-twice_example :
    let q = (create_valid store decrypt object_id env steve nobody).0 in
    let q' = (create_valid store decrypt object_id env' steve q).0 in
    (count_if (lives_as "steve") q'.db ≡ 2)
    × (count_if (has_id "2") q'.db ≡ 1)
    × (count_if (has_id "3") q'.db ≡ 1)
unfolding validate_create_request
create_valid-twice_example =
    create_valid-twice store decrypt object_id store-IsCollection (λ s. refl) env env' steve steve
      nobody refl refl refl refl refl refl refl refl

-- The op's link to a pending request.
handle_verify_matching_tokens-handle_patch_request_by_id_example :
    let answer =
      handle_verify_matching_tokens store decrypt object_id env "link-1" (some "link-op") waiting in
    ((answer ≡ bare 200)
      × ((r : Request) × (op : String) × AreMatching store decrypt object_id store-IsCollection
            (λ s. refl)
            "link-1"
            (some "link-op")
            r
            op
            waiting
          × IsPatchOf store decrypt object_id store-IsCollection
              (λ s. refl)
              env
              r
              op
              approval
              waiting
              patched))
    ⊎ ((answer ≢ bare 200) × (patched.0 ≡ waiting))
handle_verify_matching_tokens-handle_patch_request_by_id_example =
    handle_verify_matching_tokens-handle_patch_request_by_id store decrypt object_id
      store-IsCollection (λ s. refl) env "link-1" (some "link-op") approval waiting
      (λ id. ground arith) refl refl refl
