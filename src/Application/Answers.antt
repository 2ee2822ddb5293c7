-- ===== src/Application/Answers.antt =====
-- What the answers to the two calls of a username's check leave of the form.
use mc_gatekeeper.Prelude.{
  String, true, false, nat_eq, none, some, [], ◌∷◌, ◌≡◌, refl, inl, inr, ◌⊎◌, ◌↔◌, count_if,
  count_if-append, Bool-cases, Option-cases, arith, ap,
}
use mathlib.Core.Option.{some-injective}
use mc_gatekeeper.Js.{Value, Outcome, fulfilled, rejected, truthy}
use mc_gatekeeper.Application.{
  get_qr_code_content, AppPage, skin_failed, on_skin_image, qr_failed, on_qr_code, read_skin_url,
  read_symbol, is_verification, Symbol, err_skin_not_match, err_verification,
}
use mc_gatekeeper.Application.Username.{is_check}

-- The spinner turns, no answer is awaited, and nothing is verified.
pub record IsWedged (p : AppPage) : Type 0 where
  pub spinning : p.state.loading ≡ true
  pub unverified : p.state.verified ≡ false
  pub idle : count_if is_check p.pending ≡ 0

-- The answers to `getSkinImage` after which `loading` is not reset and no other call is made: a
-- success other than 200, and a skin without a URL.
abbrev pub IsDeadEnd : Outcome → Type 0
IsDeadEnd (fulfilled status body) =
    (nat_eq status 200 ≡ false)
    ⊎ ((url : Value) × (read_skin_url body ≡ some url) × (truthy url ≡ false))
IsDeadEnd (rejected response) = ⊥

-- An answer of the QR reader that holds the verification code.
abbrev pub IsConfirmation : Outcome → Type 0
IsConfirmation (fulfilled status body) =
    (symbol : Symbol) × (read_symbol body ≡ some symbol) × (is_verification symbol ≡ true)
IsConfirmation (rejected response) = ⊥

module _ (t : String → String) where
  -- The answer to `getSkinImage` wedges the page exactly when it is a dead end.
  pub on_skin_image-IsWedged_iff :
      (name : String) (o : Outcome) (p : AppPage)
      → p.state.loading ≡ true
      → p.state.verified ≡ false
      → count_if is_check p.pending ≡ 0
      → IsWedged (on_skin_image t name o p) ↔ IsDeadEnd o
  unfolding on_skin_image skin_failed
  on_skin_image-IsWedged_iff name (rejected none) p l v n = (λ w. cc (w.spinning), λ d. elim d [ ])
  on_skin_image-IsWedged_iff name (rejected (some status)) p l v n =
      (λ w. cc (w.spinning), λ d. elim d [ ])
  on_skin_image-IsWedged_iff name (fulfilled status body) p l v n =
      elim (Bool-cases (nat_eq status 200)) [
        | inr other ↦
            rw other (λ w. inl refl, λ d. record { spinning = l; unverified = v; idle = n })
        | inl ok ↦ elim (Option-cases (read_skin_url body)) [
          | inl thrown ↦
              rw (ok, thrown, on_skin_image)
                (λ w. cc (w.spinning), λ d. elim d [ inl e ↦ cc | inr (url, e, _) ↦ cc ])
          | inr (url, found) ↦ elim (Bool-cases (truthy url)) [
            | inr empty ↦
                rw (ok, found, on_skin_image, empty)
                  (
                    λ w. inr (url, refl, empty),
                    λ d. record { spinning = l; unverified = v; idle = n },
                  )
            | inl shown ↦
                rw (ok, found, on_skin_image, shown)
                  (
                    λ w. absurd (
                        omega (
                          arith,
                          w.idle,
                          count_if-append is_check p.pending (get_qr_code_content name url ∷ []),
                        )),
                    λ d. elim d [
                      | inl e ↦ cc
                      | inr (u, e, empty) ↦ cc (ap truthy (some-injective _ _ e))
                    ],
                  )
          ]
        ]
      ]

  -- A picture's answer always gives the form back. It verifies the account exactly when the
  -- picture was read and is the verification code; otherwise the page shows one of two errors.
  pub on_qr_code-verified_iff :
      (o : Outcome) (p : AppPage)
      → p.state.verified ≡ false
      → let s = (on_qr_code t o p).state in
        (s.loading ≡ false)
        × ((s.verified ≡ true) ↔ IsConfirmation o)
        × ((s.verified ≡ true)
            ⊎ (s.error_msg ≡ err_skin_not_match t)
            ⊎ (s.error_msg ≡ err_verification t))
  unfolding on_qr_code qr_failed
  on_qr_code-verified_iff (rejected response) p v =
      (refl, (λ e. cc, λ d. elim d [ ]), inr (inr refl))
  on_qr_code-verified_iff (fulfilled status body) p v = elim (Option-cases (read_symbol body)) [
    | inl thrown ↦ rw (thrown, on_qr_code) (refl, (λ e. cc, λ (symbol, e, _). cc), inr (inr refl))
    | inr (symbol, found) ↦ elim (Bool-cases (is_verification symbol)) [
      | inl verifies ↦
          rw (found, on_qr_code, verifies)
            (refl, (λ e. (symbol, refl, verifies), λ d. refl), inl refl)
      | inr other ↦
          rw (found, on_qr_code, other)
            (
              refl,
              (λ e. cc, λ (k, e, verifies). cc (ap is_verification (some-injective _ _ e))),
              inr (inl refl),
            )
    ]
  ]
