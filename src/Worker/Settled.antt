-- ===== src/Worker/Settled.antt =====
-- When the worker settles a message.
use mc_gatekeeper.Prelude.{
  ℕ, ◌+◌, String, Bool, true, false, ◌||◌, ◌==◌, none, some, List, [], ◌∷◌, ◌++◌, ◌≡◌, refl, inl,
  inr, arith, if◌then◌else◌, Bool-cases, Option-cases, count_if, leb, length,
}
use mc_gatekeeper.Types.{Request}
use mc_gatekeeper.Cache.Counters.{by_status}
use mc_gatekeeper.Worker.{
  Effect, update_cache, command, ack, nack, World, email_decision, email_confirmation, mail_ops,
  assigned, email_to_ops, process_approval, process_denial, process_ban, process_deactivate,
  process_new_request, on_delivery, dispatched, after_rcon, Body, no_body, unreadable, message,
}
use mc_gatekeeper.Result.{Result, ok, err, panics}
use Prim.Native.String.{◌++◌ as text_append}

abbrev pub settles : Effect → Bool
settles ack = true
settles nack = true
settles _ = false

-- How often a message is settled.
abbrev pub settlements : List Effect → ℕ
settlements effects = count_if settles effects

abbrev pub is_known : String → Bool
is_known s =
    s == "Approved" || s == "Denied" || s == "Pending" || s == "Deactivated" || s == "Banned"

settlements-append :
    (es fs : List Effect) → settlements (es ++ fs) ≡ settlements es + settlements fs
settlements-append [] fs = omega arith
settlements-append (e ∷ es) fs = omega (arith, settlements-append es fs)

settlements-decision : (w : World) (r : Request) → settlements (email_decision w r) ≡ 0
unfolding email_decision
settlements-decision w r = elim (Option-cases (w.encrypt r.id)) [
  | inl e ↦ simp (e, email_decision) refl
  | inr (token, e) ↦ elim (Bool-cases (r.status == "Approved")) [
    | inl a ↦ simp (e, a, email_decision) refl
    | inr a ↦ simp (e, a, email_decision) refl
  ]
]

settlements-confirmation : (w : World) (r : Request) → settlements (email_confirmation w r) ≡ 0
unfolding email_confirmation
settlements-confirmation w r = elim (Option-cases (w.encrypt r.id)) [
  | inl e ↦ simp (e, email_confirmation) refl
  | inr (token, e) ↦ simp (e, email_confirmation) refl
]

settlements-mail_ops :
    (w : World) (r : Request) (token : String) (ops : List String)
    → settlements (mail_ops w r token ops).0 ≡ 0
unfolding mail_ops
settlements-mail_ops w r token [] = refl
settlements-mail_ops w r token (op ∷ ops) = elim (Option-cases (w.encrypt op)) [
  | inl e ↦ simp (e, mail_ops) refl
  | inr (op_token, e) ↦ simp (e, mail_ops) (omega (arith, settlements-mail_ops w r token ops))
]

settlements-assigned : (r : Request) (ops : List String) → settlements (assigned r ops) ≡ 0
settlements-assigned r [] = refl
settlements-assigned r (op ∷ ops) = refl

settlements-ops : (w : World) (r : Request) → settlements (email_to_ops w r).0 ≡ 0
unfolding email_to_ops
settlements-ops w r = elim (Option-cases (w.encrypt r.id)) [
  | inl e ↦ simp (e, email_to_ops) refl
  | inr (token, e) ↦ elim (Option-cases w.target_ops) [
    | inl g ↦ simp (e, g, email_to_ops) refl
    | inr (ops, g) ↦
        let q = mail_ops w r token ops in
        elim (Bool-cases (mail_ops w r token ops).2) [
          | inr f ↦ simp (e, g, email_to_ops, f) (settlements-mail_ops w r token ops)
          | inl f ↦
              simp (e, g, email_to_ops, f)
                (omega (
                  arith,
                  settlements-append q.0 (assigned r q.1),
                  settlements-assigned r q.1,
                  settlements-mail_ops w r token ops,
                ))
        ]
  ]
]

abbrev pub is_panic : Result String → Bool
is_panic panics = true
is_panic _ = false

settlements-after_rcon :
    (r : Request) (text : String) (o : Result String) (next : List Effect)
    → settlements next ≡ 1
    → settlements (update_cache r ∷ command text ∷ after_rcon o next)
      ≡ (if is_panic o then 0 else 1)
settlements-after_rcon r text (ok reply) next one = omega (arith, one)
settlements-after_rcon r text (err m) next one = refl
settlements-after_rcon r text panics next one = refl

settlements-approval :
    (w : World) (r : Request)
    → settlements (process_approval w r)
      ≡ (if is_panic (w.rcon (text_append "whitelist add " r.username)) then 0 else 1)
unfolding process_approval
settlements-approval w r =
    settlements-after_rcon r (text_append "whitelist add " r.username)
      (w.rcon (text_append "whitelist add " r.username)) (email_decision w r ++ ack ∷ [])
      (omega (arith, settlements-append (email_decision w r) (ack ∷ []), settlements-decision w r))

settlements-denial : (w : World) (r : Request) → settlements (process_denial w r) ≡ 1
unfolding process_denial
settlements-denial w r =
    omega (arith, settlements-append (email_decision w r) (ack ∷ []), settlements-decision w r)

settlements-ban :
    (w : World) (r : Request)
    → settlements (process_ban w r)
      ≡ (if is_panic (w.rcon (text_append "ban " r.username)) then 0 else 1)
unfolding process_ban
settlements-ban w r =
    settlements-after_rcon r (text_append "ban " r.username)
      (w.rcon (text_append "ban " r.username)) (ack ∷ []) refl

settlements-deactivate :
    (w : World) (r : Request)
    → settlements (process_deactivate w r)
      ≡ (if is_panic (w.rcon (text_append "whitelist remove " r.username)) then 0 else 1)
unfolding process_deactivate
settlements-deactivate w r =
    settlements-after_rcon r (text_append "whitelist remove " r.username)
      (w.rcon (text_append "whitelist remove " r.username)) (ack ∷ []) refl

-- The token of the request is made, and then the choice of the ops panics.
abbrev pub dispatch_panics : World → Request → Bool
dispatch_panics w r = elim (w.encrypt r.id) [
  | none ↦ false
  | some token ↦ elim w.target_ops [ none ↦ true | some ops ↦ false ]
]

settlements-dispatched :
    (w : World) (r : Request)
    → settlements (dispatched (email_to_ops w r).1 ∷ []) ≡ (if dispatch_panics w r then 0 else 1)
unfolding email_to_ops
settlements-dispatched w r = elim (Option-cases (w.encrypt r.id)) [
  | inl e ↦ simp (e, email_to_ops, dispatch_panics) refl
  | inr (token, e) ↦ elim (Option-cases w.target_ops) [
    | inl g ↦ simp (e, g, email_to_ops, dispatch_panics) refl
    | inr (ops, g) ↦
        let q = mail_ops w r token ops in
        elim (Bool-cases (mail_ops w r token ops).2) [
          | inr f ↦ simp (e, g, email_to_ops, f, dispatch_panics) refl
          | inl f ↦ elim (Bool-cases (leb w.min_required_receiver (length q.1))) [
            | inl h ↦ simp (e, g, email_to_ops, f, h, dispatch_panics) refl
            | inr h ↦ simp (e, g, email_to_ops, f, h, dispatch_panics) refl
          ]
        ]
  ]
]

settlements-new_request :
    (w : World) (r : Request)
    → settlements (process_new_request w r) ≡ (if dispatch_panics w r then 0 else 1)
unfolding process_new_request
settlements-new_request w r =
    let last = dispatched (email_to_ops w r).1 ∷ [] in
    omega (
      arith,
      settlements-append (email_confirmation w r ++ (email_to_ops w r).0) last,
      settlements-append (email_confirmation w r) (email_to_ops w r).0,
      settlements-confirmation w r,
      settlements-ops w r,
      settlements-dispatched w r,
    )

-- Does the worker panic over a message: in the command that its status asks for, or in the choice of
-- the ops for a new request?
abbrev pub is_fatal : World → Request → Bool
is_fatal w r =
    if r.status == "Approved"
    then is_panic (w.rcon (text_append "whitelist add " r.username))
    else if r.status == "Deactivated"
    then is_panic (w.rcon (text_append "whitelist remove " r.username))
    else if r.status == "Banned"
    then is_panic (w.rcon (text_append "ban " r.username))
    else if r.status == "Pending"
    then dispatch_panics w r
    else false

-- How often a message is to be settled.
abbrev pub due : World → Body → ℕ
due w no_body = 0
due w unreadable = 1
due w (message r) = if is_known r.status then (if is_fatal w r then 0 else 1) else 0

-- A message that cannot be read is settled exactly once, and so is one whose status is one of the
-- five, unless the worker panics in the command of that status or in the choice of the ops, where it
-- is never settled; one with any other status, and one without a body, is never settled.
pub on_delivery-settlements :
    (w : World) (body : Body) → settlements (on_delivery w body) ≡ due w body
unfolding on_delivery
on_delivery-settlements w no_body = refl
on_delivery-settlements w unreadable = refl
on_delivery-settlements w (message r) =
    by_status
      (λ u.
        settlements (on_delivery w (message (record r { status = u })))
        ≡ due w (message (record r { status = u })))
      (settlements-approval w (record r { status = "Approved" }))
      (settlements-denial w (record r { status = "Denied" }))
      (settlements-new_request w (record r { status = "Pending" }))
      (settlements-ban w (record r { status = "Banned" }))
      (settlements-deactivate w (record r { status = "Deactivated" }))
      (λ u k.
        simp (k.not_approved, k.not_denied, k.not_pending, k.not_banned, k.not_deactivated) refl)
      r.status
