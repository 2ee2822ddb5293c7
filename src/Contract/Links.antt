-- ===== src/Contract/Links.antt =====
-- The links that the worker mails to the ops (server/worker/worker.go), used as the action page does
-- (app/src/components/AdminAction.js), at the handlers of server/server.
use mc_gatekeeper.Prelude.{
  String, true, ◌==◌, some, List, [], ◌∷◌, ◌++◌, Memᴰ, ◌≡◌, refl, sym, ap, ◌∙◌, inl, inr,
  Bool-cases, Option-cases, eq_iff,
}
use mathlib.Core.Bool.{true≢false}
use mc_gatekeeper.Types.{Request}
use mathlib.Core.List.{append-nil}
use mc_gatekeeper.Server.{is_in}
use mc_gatekeeper.Worker.{Effect, mail, assign, World, mail_ops, assigned, email_to_ops}
use Prim.Native.String.{◌++◌ as text_append}

-- The link of a mail to an op.
abbrev pub link_to : World → String → String → String
link_to w token op_token =
    text_append w.frontend_deployed_url
      (text_append "action/" (text_append token (text_append "?adm=" op_token)))

abbrev pub ops_mail : World → Request → String → String → String → Effect
ops_mail w r token op op_token =
    mail "./mailer/templates/ops.html" (link_to w token op_token)
      (text_append "[Action Required] Whitelist request from " r.username) op

-- The ops that the effects assign.
abbrev pub assigned_ops : List Effect → List String
assigned_ops [] = []
assigned_ops (assign id ops ∷ rest) = ops ++ assigned_ops rest
assigned_ops (_ ∷ rest) = assigned_ops rest

module _ (w : World) (r : Request) where
  -- An op that a round of mails counts as an assignee has a mail with a token of its own.
  abbrev pub HasMail : String → String → List Effect → Type 0
  HasMail token op effects =
      (op_token : String) × (w.encrypt op ≡ some op_token)
      × Memᴰ (ops_mail w r token op op_token) effects

  mail_ops-HasMail :
      (token : String) (ops : List String) (op : String)
      → is_in op (mail_ops w r token ops).1 ≡ true
      → HasMail token op (mail_ops w r token ops).0
  unfolding mail_ops
  mail_ops-HasMail token [] op h = absurd (true≢false (sym h))
  mail_ops-HasMail token (o ∷ ops) op h = elim (Option-cases (w.encrypt o)) [
    | inl e ↦ absurd (true≢false (sym (simp (e, mail_ops) at h)))
    | inr (op_token, e) ↦ elim (Bool-cases (op == o)) [
      | inl s ↦
          let same = (eq_iff op o).0 s in
          simp (e, mail_ops)
            (
              op_token,
              ap w.encrypt same ∙ e,
              Memᴰ.head (ap (λ x. ops_mail w r token x op_token) same),
            )
      | inr s ↦ elim (Bool-cases (w.sends "./mailer/templates/ops.html" o)) [
        | inl k ↦
            let (t, made, there) = mail_ops-HasMail token ops op (simp (e, k, s, mail_ops) at h) in
            simp (e, mail_ops) (t, made, Memᴰ.tail there)
        | inr k ↦
            let (t, made, there) = mail_ops-HasMail token ops op (simp (e, k, mail_ops) at h) in
            simp (e, mail_ops) (t, made, Memᴰ.tail there)
      ]
    ]
  ]

  mail_ops-sends :
      (token : String) (ops : List String) (op : String)
      → is_in op (mail_ops w r token ops).1 ≡ true
      → w.sends "./mailer/templates/ops.html" op ≡ true
  unfolding mail_ops
  mail_ops-sends token [] op h = absurd (true≢false (sym h))
  mail_ops-sends token (o ∷ ops) op h = elim (Option-cases (w.encrypt o)) [
    | inl e ↦ absurd (true≢false (sym (simp (e, mail_ops) at h)))
    | inr (op_token, e) ↦ elim (Bool-cases (w.sends "./mailer/templates/ops.html" o)) [
      | inr k ↦ mail_ops-sends token ops op (simp (e, k, mail_ops) at h)
      | inl k ↦ elim (Bool-cases (op == o)) [
        | inl s ↦ ap (w.sends "./mailer/templates/ops.html") ((eq_iff op o).0 s) ∙ k
        | inr s ↦ mail_ops-sends token ops op (simp (e, k, s, mail_ops) at h)
      ]
    ]
  ]

  assigned_ops-assigned : (rest : List String) → assigned_ops (assigned r rest) ≡ rest
  assigned_ops-assigned [] = refl
  assigned_ops-assigned (op ∷ rest) = append-nil (op ∷ rest)

  assigned_ops-mail_ops :
      (token : String) (ops rest : List String)
      → assigned_ops ((mail_ops w r token ops).0 ++ assigned r rest) ≡ rest
  unfolding mail_ops
  assigned_ops-mail_ops token [] rest = assigned_ops-assigned rest
  assigned_ops-mail_ops token (o ∷ ops) rest = elim (Option-cases (w.encrypt o)) [
    | inl e ↦ simp (e, mail_ops) (assigned_ops-assigned rest)
    | inr (op_token, e) ↦ simp (e, mail_ops) (assigned_ops-mail_ops token ops rest)
  ]

  assigned_ops-mails :
      (token : String) (ops : List String) → assigned_ops (mail_ops w r token ops).0 ≡ []
  assigned_ops-mails token ops =
      ap assigned_ops (sym (append-nil (mail_ops w r token ops).0))
      ∙ assigned_ops-mail_ops token ops []

  Mem-append : (e : Effect) (es fs : List Effect) → Memᴰ e es → Memᴰ e (es ++ fs)
  Mem-append e (x ∷ es) fs (Memᴰ.head p) = Memᴰ.head p
  Mem-append e (x ∷ es) fs (Memᴰ.tail m) = Memᴰ.tail (Mem-append e es fs m)
  Mem-append e [] fs m = elim m [ ]

  -- Every op that the new request is assigned to has been mailed a link with tokens of the request
  -- and of the op, and a mail to that op can be sent.
  pub email_to_ops-HasMail :
      (op : String)
      → is_in op (assigned_ops (email_to_ops w r).0) ≡ true
      → (token : String) × (w.encrypt r.id ≡ some token)
        × HasMail token op (email_to_ops w r).0
        × (w.sends "./mailer/templates/ops.html" op ≡ true)
  unfolding email_to_ops
  email_to_ops-HasMail op h = elim (Option-cases (w.encrypt r.id)) [
    | inl e ↦ absurd (true≢false (sym (simp (e, email_to_ops) at h)))
    | inr (token, e) ↦ elim (Option-cases w.target_ops) [
      | inl g ↦ absurd (true≢false (sym (simp (e, g, email_to_ops) at h)))
      | inr (ops, g) ↦
          let q = mail_ops w r token ops in
          elim (Bool-cases (mail_ops w r token ops).2) [
            | inr f ↦
                let in_mails = simp (e, g, email_to_ops, f) at h in
                absurd (true≢false (sym in_mails ∙ ap (is_in op) (assigned_ops-mails token ops)))
            | inl f ↦
                let in_all = simp (e, g, email_to_ops, f) at h in
                let here = ap (is_in op) (sym (assigned_ops-mail_ops token ops q.1)) ∙ in_all in
                let (t, made, there) = mail_ops-HasMail token ops op here in
                (
                  token,
                  e,
                  simp (e, g, email_to_ops, f) (t, made, Mem-append _ q.0 (assigned r q.1) there),
                  mail_ops-sends token ops op here,
                )
          ]
    ]
  ]
