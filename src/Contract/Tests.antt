-- ===== src/Contract/Tests.antt =====
-- The link of an op at a list as the collection, with the sample cipher.
use mc_gatekeeper.Prelude.{String, true, some, [], ◌∷◌, Memᴰ, ◌≡◌, refl, arith}
use mc_gatekeeper.Prelude.Int.{pos}
use mc_gatekeeper.Js.{undefined, str}
use mc_gatekeeper.Types.{Request}
use mc_gatekeeper.Tokens.{encode_and_encrypt}
use mc_gatekeeper.Tokens.Sample.{sample, sample-IsCrypto}
use mc_gatekeeper.Server.{Changes, value, stamped, Env, Server, handle_patch_request_by_id, updated}
use mc_gatekeeper.Server.Tests.Store.{store, store-IsCollection}
use mc_gatekeeper.Result.{ok}
use mc_gatekeeper.Worker.{World, mail_ops, email_to_ops}
use mc_gatekeeper.Contract.Links.{ops_mail}
use mc_gatekeeper.Contract.Decide.{decrypt, IsReady, IsMade, assigned-decides}

-- The ids of the tests are their own text.
abbrev pub object_id : String → String
object_id s = s

abbrev pub world : World
world = record {
  encrypt = λ s. encode_and_encrypt sample (some (7 ∷ 8 ∷ [])) s "key";
  sends = λ template recipient. true;
  rcon = λ text. ok "";
  target_ops = some ("a@x.org" ∷ "b@x.org" ∷ []);
  min_required_receiver = 1;
  frontend_deployed_url = "https://mc/";
  approved_email_title = "Approved";
  denied_email_title = "Denied";
  confirmation_email_title = "Received";
}

pub world-IsMade : IsMade sample "key" world
world-IsMade s token e = (7 ∷ 8 ∷ [], refl, e)

abbrev pub steve : Request
steve = record {
  id = "1";
  username = "steve";
  email = "s@x.org";
  age = pos 20;
  gender = "male";
  status = "Pending";
  timestamp = 0;
  processed_timestamp = 0;
  last_updated_timestamp = 0;
  admin = "";
  note = "";
  info = undefined;
  assignees = [];
}

-- As the assignment has stored it.
abbrev pub stored : Request
stored = record steve { assignees = "a@x.org" ∷ "b@x.org" ∷ [] }

abbrev waiting : Server
waiting = record { db = stored ∷ []; published = [] }

abbrev pub env : Env
env = record {
  now1 = 10;
  now2 = 11;
  new_id = "2";
  can_read_body = true;
  can_find = true;
  can_write = true;
  can_publish = true;
}

env-IsReady : IsReady env
env-IsReady = record { reads = refl; finds = refl; writes = refl; publishes = refl }

abbrev approval : Changes
approval = ("status", value (str "Approved")) ∷ []

abbrev approved : Request
approved = record stored { status = "Approved"; admin = "a@x.org" }

assigned-decides_example :
    (token : String) × (op_token : String) × Memᴰ
      (ops_mail world steve token "a@x.org" op_token)
      (email_to_ops world steve).0
    × (world.sends "./mailer/templates/ops.html" "a@x.org" ≡ true)
    × (handle_patch_request_by_id store
          (decrypt sample "key")
          object_id
          env
          token
          (some op_token)
          (some approval)
          waiting
        ≡ (record { db = approved ∷ []; published = approved ∷ [] }, updated approved))
    × (approved.id ≡ "1")
    × (approved.status ≡ "Approved")
    × (approved.admin ≡ "a@x.org")
unfolding email_to_ops mail_ops encode_and_encrypt stamped
assigned-decides_example =
    assigned-decides sample "key" store object_id store-IsCollection (λ s. refl) sample-IsCrypto
      world world-IsMade steve stored approved "a@x.org" "Approved" approval env waiting []
      (approved ∷ []) refl refl refl refl (λ id. ground arith) env-IsReady refl refl
