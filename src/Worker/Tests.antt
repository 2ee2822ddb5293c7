-- ===== src/Worker/Tests.antt =====
-- The worker at concrete messages.
use mc_gatekeeper.Prelude.{if◌then◌else◌, not, ◌==◌, some, [], ◌∷◌, ◌≡◌, refl}
use mc_gatekeeper.Prelude.Int.{pos}
use mc_gatekeeper.Js.{undefined}
use mc_gatekeeper.Types.{Request}
use mc_gatekeeper.Worker.{update_cache, mail, assign, ack, World, message, mail_ops, on_delivery}
use mc_gatekeeper.Result.{ok, panics}
use mc_gatekeeper.Worker.Settled.{settlements, on_delivery-settlements}

-- Mails to one of the two ops cannot be sent.
abbrev world : World
world = record {
  encrypt = λ s. some s;
  sends = λ template recipient. not (recipient == "b@x.org");
  rcon = λ text. if text == "ban steve" then panics else ok "";
  target_ops = some ("a@x.org" ∷ "b@x.org" ∷ []);
  min_required_receiver = 1;
  frontend_deployed_url = "https://mc/";
  approved_email_title = "Approved";
  denied_email_title = "Denied";
  confirmation_email_title = "Received";
}

abbrev steve : Request
steve = record {
  id = "1";
  username = "steve";
  email = "s@x.org";
  age = pos 20;
  gender = "male";
  status = "Pending";
  timestamp = 0;
  processed_timestamp = 0;
  last_updated_timestamp = 0;
  admin = "";
  note = "";
  info = undefined;
  assignees = [];
}

on_delivery-steve :
    on_delivery world (message steve)
    ≡ update_cache steve
      ∷ mail "./mailer/templates/confirmation.html" "https://mc/status/1" "Received" "s@x.org"
      ∷ mail "./mailer/templates/ops.html" "https://mc/action/1?adm=a@x.org"
          "[Action Required] Whitelist request from steve" "a@x.org"
      ∷ mail "./mailer/templates/ops.html" "https://mc/action/1?adm=b@x.org"
          "[Action Required] Whitelist request from steve" "b@x.org"
      ∷ assign "1" ("a@x.org" ∷ [])
      ∷ ack
      ∷ []
unfolding on_delivery mail_ops
on_delivery-steve = refl

on_delivery-settlements_example :
    settlements (on_delivery world (message (record steve { status = "Approved" }))) ≡ 1
on_delivery-settlements_example =
    on_delivery-settlements world (message (record steve { status = "Approved" }))
