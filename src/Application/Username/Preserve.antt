-- ===== src/Application/Username/Preserve.antt =====
-- The handlers and callbacks of the application page and the invariant of its calls.
use mc_gatekeeper.Prelude.{
  ℕ, String, true, false, nat_eq, Option, none, some, Memᴰ, count_if, ◌≡◌, refl, sym, inl, inr,
  Bool-cases, Option-cases, arith, ◌∙◌, subst, nat_eq→eq,
}
use mc_gatekeeper.Js.{Value, Outcome, fulfilled, rejected, get, truthy}
use mc_gatekeeper.Application.{
  State, Name, email, username, gender, age, application_text, Call, create_request, get_skin_image,
  get_qr_code_content, AppPage, read_skin_url, read_symbol, is_blank, is_verification,
  handle_input_change, on_verify_settled, on_created, on_verify_username, skin_failed,
  on_skin_image, qr_failed, on_qr_code, on_timeout, new_request,
}
use mc_gatekeeper.Application.Username.{
  Inv, Checking, is_check, Served, Confirmed, keep-Inv, idle-Inv, call-Inv, none-checking,
}

pub idle-page : {p : AppPage} → Inv p → p.state.loading ≡ false → count_if is_check p.pending ≡ 0
idle-page {p} i l = none-checking p.settled p.state p.pending l i.calls

pub handle_input_change-Inv :
    (name : Name) (v : String) {p : AppPage}
    → (name ≡ username → (p.state.verified ≡ false) × (p.state.loading ≡ false))
    → Inv p
    → Inv (handle_input_change name v p)
unfolding handle_input_change
handle_input_change-Inv email v free i = keep-Inv _ _ refl refl refl i
handle_input_change-Inv username v free i =
    let (unverified, idle) = free refl in
    idle-Inv _ _ (idle-page i idle) (λ e. e) (λ e. absurd (cc)) i
handle_input_change-Inv gender v free i = keep-Inv _ _ refl refl refl i
handle_input_change-Inv age v free i = keep-Inv _ _ refl refl refl i
handle_input_change-Inv application_text v free i = keep-Inv _ _ refl refl refl i

pub on_timeout-Inv : {p : AppPage} → Inv p → Inv (on_timeout p)
unfolding on_timeout
on_timeout-Inv i = keep-Inv _ _ refl refl refl i

pub on_verify_settled-Inv :
    (o : Outcome) {p : AppPage} → p.state.verified ≡ true → Inv p → Inv (on_verify_settled o p)
unfolding on_verify_settled
on_verify_settled-Inv (rejected response) v i = i
on_verify_settled-Inv (fulfilled status body) {p} v i = elim (Bool-cases (nat_eq status 200)) [
  | inr other ↦ rw other i
  | inl ok ↦ elim (Option-cases (get body "success")) [
    | inl thrown ↦ rw (ok, thrown) i
    | inr (success, found) ↦ elim (Bool-cases (truthy success)) [
      | inr no_success ↦ rw (ok, found, no_success) i
      | inl accepted ↦
          rw (ok, found, accepted)
            (call-Inv (create_request (new_request p.state)) (i.confirmed v)
              (omega (arith, i.single)) i)
    ]
  ]
]

module _ (t : String → String) where
  pub on_created-Inv : (o : Outcome) {p : AppPage} → Inv p → Inv (on_created t o p)
  unfolding on_created
  on_created-Inv (rejected none) i = i
  on_created-Inv (fulfilled status body) i = elim (Bool-cases (nat_eq status 201)) [
    | inl yes' ↦ rw yes' (keep-Inv _ _ refl refl refl i)
    | inr no' ↦ rw no' i
  ]
  on_created-Inv (rejected (some status)) i = elim (Bool-cases (nat_eq status 422)) [
    | inl a ↦ rw a (keep-Inv _ _ refl refl refl i)
    | inr a ↦ elim (Bool-cases (nat_eq status 409)) [
      | inl b ↦ rw (a, b) (keep-Inv _ _ refl refl refl i)
      | inr b ↦ elim (Bool-cases (nat_eq status 403)) [
        | inl c ↦ rw (a, b, c) (keep-Inv _ _ refl refl refl i)
        | inr c ↦ elim (Bool-cases (nat_eq status 500)) [
          | inl d ↦ rw (a, b, c, d) (keep-Inv _ _ refl refl refl i)
          | inr d ↦ rw (a, b, c, d) i
        ]
      ]
    ]
  ]

  pub on_verify_username-Inv :
      {p : AppPage}
      → p.state.verified ≡ false
      → p.state.loading ≡ false
      → Inv p
      → Inv (on_verify_username t p)
  unfolding on_verify_username
  on_verify_username-Inv {p} unverified free i =
      let idle = idle-page i free in
      elim (Bool-cases (is_blank p.state.username)) [
        | inl blank ↦ rw blank (idle-Inv _ _ idle (λ e. e) (λ e. absurd (cc)) i)
        | inr named ↦ rw named (
            call-Inv (get_skin_image p.state.username) (refl, unverified, refl)
              (omega (arith, idle)) (idle-Inv _ _ idle (λ e. e) (λ e. absurd (cc)) i))
      ]

  -- With no check in flight `loading` and the message may be set.
  rest-Inv :
      {p : AppPage} (s : State) (n : ℕ)
      → count_if is_check p.pending ≡ 0
      → s.verified ≡ p.state.verified
      → s.username ≡ p.state.username
      → Inv p
      → Inv (record p { state = s; timers = n })
  rest-Inv s n idle v u i = idle-Inv s n idle (λ e. v ∙ e) (λ e. rw u (i.confirmed (sym v ∙ e))) i

  skin_failed-Inv :
      (response : Option ℕ) {p : AppPage}
      → count_if is_check p.pending ≡ 0
      → Inv p
      → Inv (skin_failed t response p)
  unfolding skin_failed
  skin_failed-Inv none idle i = rest-Inv _ _ idle refl refl i
  skin_failed-Inv (some status) idle i = rest-Inv _ _ idle refl refl i

  qr_failed-Inv : {p : AppPage} → count_if is_check p.pending ≡ 0 → Inv p → Inv (qr_failed t p)
  unfolding qr_failed
  qr_failed-Inv idle i = rest-Inv _ _ idle refl refl i

  pub on_skin_image-Inv :
      (name : String) (o : Outcome) {p : AppPage}
      → Memᴰ (get_skin_image name, o) p.settled
      → Checking p.state name
      → count_if is_check p.pending ≡ 0
      → Inv p
      → Inv (on_skin_image t name o p)
  unfolding on_skin_image
  on_skin_image-Inv name (rejected response) m checking idle i = skin_failed-Inv response idle i
  on_skin_image-Inv name (fulfilled status body) {p} m checking idle i =
      elim (Bool-cases (nat_eq status 200)) [
        | inr other ↦ rw other i
        | inl ok ↦ elim (Option-cases (read_skin_url body)) [
          | inl thrown ↦ rw (ok, thrown, on_skin_image) (skin_failed-Inv none idle i)
          | inr (url, found) ↦ elim (Bool-cases (truthy url)) [
            | inr empty ↦ rw (ok, found, on_skin_image, empty) (rest-Inv _ _ idle refl refl i)
            | inl shown ↦
                rw (ok, found, on_skin_image, shown)
                  (call-Inv (get_qr_code_content name url)
                    (
                      checking,
                      record {
                        body = body;
                        answered =
                            subst
                              (λ k.
                                Memᴰ {A = Call × Outcome} (get_skin_image name, fulfilled k body)
                                  p.settled)
                              (nat_eq→eq status 200 ok) m;
                        points = found;
                      },
                    )
                    (omega (arith, idle)) i)
          ]
        ]
      ]

  pub on_qr_code-Inv :
      (name : String) (url : Value) (o : Outcome) {p : AppPage}
      → Memᴰ (get_qr_code_content name url, o) p.settled
      → Checking p.state name
      → Served p.settled name url
      → count_if is_check p.pending ≡ 0
      → Inv p
      → Inv (on_qr_code t o p)
  unfolding on_qr_code
  on_qr_code-Inv name url (rejected response) m checking served idle i = qr_failed-Inv idle i
  on_qr_code-Inv name url (fulfilled status body) {p} m checking served idle i =
      elim (Option-cases (read_symbol body)) [
        | inl thrown ↦ rw (thrown, on_qr_code) (qr_failed-Inv idle i)
        | inr (symbol, found) ↦ elim (Bool-cases (is_verification symbol)) [
          | inr other ↦ rw (found, on_qr_code, other) (rest-Inv _ _ idle refl refl i)
          | inl verifies ↦
              let confirmed : Confirmed p.settled p.state.username =
                subst (Confirmed p.settled) checking.2 (record {
                  url = url;
                  skin = served;
                  status = status;
                  body = body;
                  symbol = symbol;
                  scanned = m;
                  reads = found;
                  verifies = verifies;
                }) in
              rw (found, on_qr_code, verifies) (idle-Inv _ _ idle (λ e. refl) (λ e. confirmed) i)
        ]
      ]
