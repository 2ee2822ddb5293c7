-- ===== src/Rcon/Command.antt =====
-- server/rcon/client.go: `connectRCON` and `SendCommand` with its reconnections.
mod Answered
mod Tests
use mc_gatekeeper.Prelude.{
  ℕ, zero, suc, String, nat_eq, Option, none, some, List, [], ◌∷◌, if◌then◌else◌,
}
use mc_gatekeeper.Result.{Result, ok, err, panics}
use mc_gatekeeper.Rcon.{Payload, send_payload}

-- What a dialled connection has to read after the write of the authentication, and after that of the
-- command, for the bytes that were left before; none where a write fails.
pub record Connection : Type 0 where
  pub after_authentication : Option (List ℕ)
  pub after_command : List ℕ → Option (List ℕ)

-- `bytes.Trim` of null bytes
unfoldable pub trim_left : List ℕ → List ℕ
trim_left [] = []
trim_left (b ∷ bytes) = let rest = trim_left bytes in if nat_eq b 0 then rest else b ∷ bytes

abbrev trim_last : ℕ → List ℕ → List ℕ
trim_last b [] = if nat_eq b 0 then [] else b ∷ []
trim_last b (c ∷ rest) = b ∷ c ∷ rest

unfoldable pub trim_right : List ℕ → List ℕ
trim_right [] = []
trim_right (b ∷ bytes) = trim_last b (trim_right bytes)

-- `connectRCON` for what `net.DialTimeout` gives: the connection and the bytes that are left.
unfoldable pub connect_rcon : Payload → Option Connection → Result (Connection × List ℕ)
connect_rcon authentication none = err "dial"
connect_rcon authentication (some c) = elim (send_payload authentication c.after_authentication) [
  | err e ↦ err e
  | panics ↦ panics
  | ok (_, rest) ↦ ok (c, rest)
]

-- The loop of `SendCommand`, for the attempts that are left; `dial n` is what dialling gives where
-- `n` are left after it.
unfoldable pub reconnect : ℕ → (ℕ → Payload × Option Connection) → Payload → Result Payload
unfolding connect_rcon
reconnect zero dial command = err "Unable to reconnect to RCON server. Game server is down"
reconnect (suc n) dial command =
    let later = reconnect n dial command in
    let (authentication, dialled) = dial n in
    elim (connect_rcon authentication dialled) [
      | err _ ↦ later
      | panics ↦ panics
      | ok (c, rest) ↦ elim (send_payload command (c.after_command rest)) [
        | err e ↦ err e
        | panics ↦ panics
        | ok (response, _) ↦ ok response
      ]
    ]

abbrev pub attempts : ℕ
attempts = 3

-- `SendCommand`: `text` is `strings.TrimSpace` of the bytes as a string.
module _ (text : List ℕ → String) where
  abbrev pub body_text : Payload → String
  body_text response = text (trim_right (trim_left response.packet_body))

  unfoldable pub send_command :
      Option (List ℕ) → (ℕ → Payload × Option Connection) → Payload → Result String
  unfolding reconnect trim_left trim_right
  send_command input dial command = elim (send_payload command input) [
    | ok (response, _) ↦ ok (body_text response)
    | panics ↦ panics
    | err _ ↦ elim (reconnect attempts dial command) [
      | ok response ↦ ok (body_text response)
      | panics ↦ panics
      | err e ↦ err e
    ]
  ]
