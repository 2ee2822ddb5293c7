-- ===== src/Worker.antt =====
-- server/worker/worker.go: what the worker does for a message of the queue. The effects are those
-- that others see, in their order.
mod Settled
mod Tests
use mc_gatekeeper.Prelude.{
  ℕ, suc, String, Bool, true, false, ◌==◌, leb, Option, none, some, List, [], ◌∷◌, ◌++◌, length,
  if◌then◌else◌,
}
use mc_gatekeeper.Types.{Request}
use mc_gatekeeper.Result.{Result, ok, err, panics}
use Prim.Native.String.{◌++◌ as text_append}

-- A message of the broker is settled by `ack` or `nack`; a panic ends the worker.
pub data Effect : Type 0 where
  update_cache : Request → Effect
  command : String → Effect
  mail : String → String → String → String → Effect
  assign : String → List String → Effect
  ack nack crash : Effect

-- The configuration, and how the calls go: `encrypt` is `utils.EncodeAndEncrypt`, `sends` whether a
-- mail of a template to an address can be sent, `rcon` what `SendCommand` comes to, `target_ops` what
-- `getTargetOps` returns, none where its slice `ops[:n]` panics.
pub record World : Type 0 where
  pub encrypt : String → Option String
  pub sends : String → String → Bool
  pub rcon : String → Result String
  pub target_ops : Option (List String)
  pub min_required_receiver : ℕ
  pub frontend_deployed_url : String
  pub approved_email_title : String
  pub denied_email_title : String
  pub confirmation_email_title : String

-- `emailDecision`; its error is dropped.
unfoldable pub email_decision : World → Request → List Effect
email_decision w r = elim (w.encrypt r.id) [
  | none ↦ []
  | some token ↦
      if r.status == "Approved"
      then mail "./mailer/templates/approve.html" token w.approved_email_title r.email ∷ []
      else mail "./mailer/templates/deny.html" token w.denied_email_title r.email ∷ []
]

-- `emailConfirmation`; its error is dropped.
unfoldable pub email_confirmation : World → Request → List Effect
email_confirmation w r = elim (w.encrypt r.id) [
  | none ↦ []
  | some token ↦
      mail "./mailer/templates/confirmation.html"
        (text_append w.frontend_deployed_url (text_append "status/" token))
        w.confirmation_email_title r.email
      ∷ []
]

-- A round of the loop over the ops, before what the later ones do.
abbrev mailed :
    World
    → Request
    → String
    → String
    → String
    → List Effect × List String × Bool
    → List Effect × List String × Bool
mailed w r token op op_token (effects, assignees, finished) =
    let link =
      text_append w.frontend_deployed_url
        (text_append "action/" (text_append token (text_append "?adm=" op_token))) in
    let subject = text_append "[Action Required] Whitelist request from " r.username in
    (
      mail "./mailer/templates/ops.html" link subject op ∷ effects,
      (if w.sends "./mailer/templates/ops.html" op then op ∷ assignees else assignees),
      finished,
    )

-- The loop of `emailToOps`: the mails, the ops that got one, and whether it came to its end.
unfoldable pub mail_ops : World → Request → String → List String → List Effect × List String × Bool
mail_ops w r token [] = ([], [], true)
mail_ops w r token (op ∷ ops) =
    let later = mail_ops w r token ops in
    elim (w.encrypt op) [
      | none ↦ ([], [], false)
      | some op_token ↦ mailed w r token op op_token later
    ]

abbrev pub assigned : Request → List String → List Effect
assigned r [] = []
assigned r (op ∷ ops) = assign r.id (op ∷ ops) ∷ []

-- Were enough mails sent?
pub data Dispatch : Type 0 where
  enough short crashed : Dispatch

-- `emailToOps`
unfoldable pub email_to_ops : World → Request → List Effect × Dispatch
unfolding mail_ops
email_to_ops w r = elim (w.encrypt r.id) [
  | none ↦ ([], short)
  | some token ↦ elim w.target_ops [
    | none ↦ ([], crashed)
    | some ops ↦
        let (mails, assignees, finished) = mail_ops w r token ops in
        if finished
        then (
          mails ++ assigned r assignees,
          (if leb w.min_required_receiver (length assignees) then enough else short),
        )
        else (mails, short)
  ]
]

-- `issueRCON`, and what is done after it.
abbrev pub after_rcon : Result String → List Effect → List Effect
after_rcon (ok reply) next = next
after_rcon (err message) next = nack ∷ []
after_rcon panics next = crash ∷ []

abbrev pub issue_rcon : World → String → List Effect → List Effect
issue_rcon w text next = command text ∷ after_rcon (w.rcon text) next

-- `processApproval`, `processDenial`, `processBan`, `processDeactivate` and `processNewRequest`
unfoldable pub process_approval : World → Request → List Effect
unfolding email_decision
process_approval w r =
    update_cache r
    ∷ issue_rcon w (text_append "whitelist add " r.username) (email_decision w r ++ ack ∷ [])

unfoldable pub process_denial : World → Request → List Effect
unfolding email_decision
process_denial w r = update_cache r ∷ email_decision w r ++ ack ∷ []

unfoldable pub process_ban : World → Request → List Effect
process_ban w r = update_cache r ∷ issue_rcon w (text_append "ban " r.username) (ack ∷ [])

unfoldable pub process_deactivate : World → Request → List Effect
process_deactivate w r =
    update_cache r ∷ issue_rcon w (text_append "whitelist remove " r.username) (ack ∷ [])

abbrev pub dispatched : Dispatch → Effect
dispatched enough = ack
dispatched short = nack
dispatched crashed = crash

unfoldable pub process_new_request : World → Request → List Effect
unfolding email_confirmation email_to_ops
process_new_request w r =
    let (mails, dispatch) = email_to_ops w r in
    update_cache r ∷ email_confirmation w r ++ mails ++ dispatched dispatch ∷ []

-- The body of a delivery: nil, one that `deserialize` cannot read, or a message.
pub data Body : Type 0 where
  no_body unreadable : Body
  message : Request → Body

-- `runLoop` for a delivery.
unfoldable pub on_delivery : World → Body → List Effect
unfolding process_approval process_denial process_ban process_deactivate process_new_request
on_delivery w no_body = []
on_delivery w unreadable = nack ∷ []
on_delivery w (message r) =
    if r.status == "Approved"
    then process_approval w r
    else if r.status == "Denied"
    then process_denial w r
    else if r.status == "Pending"
    then process_new_request w r
    else if r.status == "Deactivated"
    then process_deactivate w r
    else if r.status == "Banned"
    then process_ban w r
    else []
