-- ===== src/Rcon.antt =====
-- server/rcon/client.go: the packets of the RCON protocol. A byte is a number below 256, an int32
-- its bit pattern, a number below 2 ^ 32; a connection's input is the list of the bytes to come.
pub mod Codec
pub mod Command
mod Tests
use mc_gatekeeper.Prelude.{
  ℕ, ◌+◌, ◌-◌, ◌*◌, ◌/◌, ◌%◌, String, Bool, not, ltb, Option, none, some, List, [], ◌∷◌, ◌++◌,
  length, take, drop, nat_eq, if◌then◌else◌,
}
pub use mc_gatekeeper.Result.{Result, ok, err, panics}
use Prim.Native.Nat.{◌^◌}

pub record Payload : Type 0 where
  pub packet_id : ℕ
  pub packet_type : ℕ
  pub packet_body : List ℕ

abbrev pub payload_max_size : ℕ
payload_max_size = 1460

-- `calculatePacketSize`
abbrev pub calculate_packet_size : Payload → ℕ
calculate_packet_size p = (length p.packet_body + 4 + 4 + 2) % 2 ^ 32

-- `binary.Write` and `binary.Read` of an int32, little endian
abbrev pub put32 : ℕ → List ℕ
put32 w = w % 256 ∷ w / 256 % 256 ∷ w / 65536 % 256 ∷ w / 16777216 % 256 ∷ []

abbrev pub get32 : List ℕ → Option (ℕ × List ℕ)
get32 (a ∷ b ∷ c ∷ d ∷ rest) = some (a + 256 * b + 65536 * c + 16777216 * d, rest)
get32 _ = none

-- `binary.LittleEndian.Uint32` of the first four of enough bytes
abbrev pub uint32 : List ℕ → ℕ
uint32 (a ∷ b ∷ c ∷ d ∷ rest) = a + 256 * b + 65536 * c + 16777216 * d
uint32 _ = 0

-- A packet after its length, and the whole.
unfoldable pub frame : Payload → List ℕ
frame p = put32 p.packet_id ++ put32 p.packet_type ++ p.packet_body ++ 0 ∷ 0 ∷ []

unfoldable pub packet : Payload → List ℕ
unfolding frame
packet p = put32 (calculate_packet_size p) ++ frame p

-- `createPacketFromPayload`
unfoldable pub create_packet_from_payload : Payload → Result (List ℕ)
unfolding packet
create_packet_from_payload p =
    if ltb (length (packet p)) payload_max_size
    then ok (packet p)
    else err "payload exceeded maximum allowed size of 1460"

-- `createPayloadFromPacket` after the length has been read: `make` panics for a negative one.
unfoldable pub read_body : ℕ → List ℕ → Result (Payload × List ℕ)
read_body packet_length input =
    if not (ltb packet_length (2 ^ 31))
    then panics
    else if ltb (length input) packet_length
    then err "read packet body fail"
    else if ltb packet_length (4 + 4 + 2)
    then err "packet too short"
    else let buf = take packet_length input in
      ok (
        record {
          packet_id = uint32 buf;
          packet_type = uint32 (drop 4 buf);
          packet_body = take (packet_length - 2 - 8) (drop 8 buf);
        },
        drop packet_length input,
      )

unfoldable pub create_payload_from_packet : List ℕ → Result (Payload × List ℕ)
unfolding read_body
create_payload_from_packet input = elim (get32 input) [
  | none ↦ err "Unable to read packet length"
  | some (packet_length, rest) ↦ read_body packet_length rest
]

-- `sendPayload`: the input is what the connection has after the write, or none if that fails; -1 is
-- the id of a refused authentication.
unfoldable pub send_payload : Payload → Option (List ℕ) → Result (Payload × List ℕ)
unfolding create_packet_from_payload create_payload_from_packet
send_payload request input = elim (create_packet_from_payload request) [
  | err e ↦ err e
  | panics ↦ panics
  | ok bytes ↦ elim input [
    | none ↦ err "write"
    | some stream ↦ elim (create_payload_from_packet stream) [
      | err e ↦ err e
      | panics ↦ panics
      | ok (response, rest) ↦
          if nat_eq response.packet_id (2 ^ 32 - 1)
          then err "Authentication unsuccessful"
          else ok (response, rest)
    ]
  ]
]
