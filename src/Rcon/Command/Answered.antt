-- ===== src/Rcon/Command/Answered.antt =====
-- When a command is answered.
use mc_gatekeeper.Prelude.{
  ℕ, suc, ◌-◌, ◌<◌, String, false, nat_eq, some, Option, List, ◌++◌, ◌≡◌, ◌⊎◌, refl, inl, inr,
  arith,
}
use mc_gatekeeper.Result.{ok, err}
use mc_gatekeeper.Rcon.{Payload, create_packet_from_payload, send_payload}
use mc_gatekeeper.Rcon.Codec.{create_payload_from_packet-packet}
use mc_gatekeeper.Rcon.Command.{
  Connection, connect_rcon, reconnect, attempts, body_text, send_command,
}
use Prim.Native.Nat.{◌^◌}

-- What the command's first connection of some attempts has to read: the attempts before it fail.
pub data Reconnects (dial : ℕ → Payload × Option Connection) : ℕ → Option (List ℕ) → Type 0 where
  connected :
      {n : ℕ} {c : Connection} (rest : List ℕ)
      → connect_rcon (dial n).0 (dial n).1 ≡ ok (c, rest)
      → Reconnects dial (suc n) (c.after_command rest)
  failed :
      {n : ℕ} {input : Option (List ℕ)} (e : String)
      → connect_rcon (dial n).0 (dial n).1 ≡ err e
      → Reconnects dial n input
      → Reconnects dial (suc n) input

-- The input is the packet of a response, and more; it is no refusal.
pub record IsReply (response : Payload) (input : Option (List ℕ)) : Type 0 where
  pub bytes : List ℕ
  pub more : List ℕ
  pub made : create_packet_from_payload response ≡ ok bytes
  pub given : input ≡ some (bytes ++ more)
  pub id_bound : response.packet_id < 2 ^ 32 - 1
  pub type_bound : response.packet_type < 2 ^ 32

replied :
    (command response : Payload) (packet : List ℕ) (input : Option (List ℕ))
    → create_packet_from_payload command ≡ ok packet
    → (r : IsReply response input) → send_payload command input ≡ ok (response, r.more)
unfolding send_payload
replied command response packet input fits r =
    let read =
      create_payload_from_packet-packet response r.bytes r.more (omega (arith, r.id_bound))
        r.type_bound r.made in
    let other : nat_eq response.packet_id (2 ^ 32 - 1) ≡ false = ground (arith, r.id_bound) in
    simp (fits, r.given, read, other, send_payload) refl

reconnect-replied :
    (dial : ℕ → Payload × Option Connection) (command response : Payload) (packet : List ℕ) (n : ℕ)
    (input : Option (List ℕ))
    → create_packet_from_payload command ≡ ok packet
    → Reconnects dial n input
    → IsReply response input
    → reconnect n dial command ≡ ok response
unfolding reconnect
reconnect-replied dial command response packet _ _ fits (connected rest e) r =
    simp (e, replied command response packet _ fits r, reconnect) refl
reconnect-replied dial command response packet _ _ fits (failed m e more) r =
    simp (e, reconnect) (reconnect-replied dial command response packet _ _ fits more r)

-- A command that fits a packet is answered with the text of a response, whatever the response's id
-- is but that of a refusal, where the connection gives the response's packet, or where sending
-- fails and the first connection that one of three attempts makes gives it.
pub send_command-replied :
    (text : List ℕ → String) (dial : ℕ → Payload × Option Connection) (command response : Payload)
    (packet : List ℕ) (input : Option (List ℕ))
    → create_packet_from_payload command ≡ ok packet
    → IsReply response input
      ⊎ ((e : String) × (again : Option (List ℕ)) × (send_payload command input ≡ err e)
          × Reconnects dial attempts again
          × IsReply response again)
    → send_command text input dial command ≡ ok (body_text text response)
unfolding send_command
send_command-replied text dial command response packet input fits (inl r) =
    simp (replied command response packet input fits r, send_command) refl
send_command-replied text dial command response packet input fits
      (inr (e, again, fails, found, r)) =
    simp
      (
        fails,
        reconnect-replied dial command response packet attempts again fits found r,
        send_command,
      )
      refl
